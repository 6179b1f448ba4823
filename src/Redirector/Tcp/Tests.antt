-- ===== src/Redirector/Tcp/Tests.antt =====
-- Examples for `Redirector`: a source opens a connection, and sends two bytes over another.
use pcap2socks.Base.{
  Result, ◌++◌, arith, insert, pair_key, ◌∷◌, some, ◌≡◌, refl, ◌==◌, none, true, false, [], done,
  panic, out_of_fuel, same_pair, ok,
}
use pcap2socks.Net.{same_addr, addr_key}
use pcap2socks.Tcp.Tx
use pcap2socks.Tcp.Rx
use pcap2socks.Socks.Stream
use pcap2socks.Forwarder.Packet
use pcap2socks.Forwarder.Streams
use pcap2socks.Forwarder.State
use pcap2socks.Redirector.Tcp.{Redirector, Tcp, Handled, new}
use pcap2socks.Tcp.Tx.{TcpTxState}
use pcap2socks.Tcp.Tx.Valid
use pcap2socks.Tcp.Tx.Acknowledge.{left_by}
use pcap2socks.Tcp.Rx.{TcpRxState}
use pcap2socks.Cache.Window
use pcap2socks.Cache.Window.Laws
use pcap2socks.Socks.Stream.{StreamWorker}
use pcap2socks.Redirector.Tcp.Deliver.{handle_tcp_in_order}
use pcap2socks.Redirector.Tcp.Deliver.Rest.{IsAnswered}
use pcap2socks.Redirector.Tcp.Handle.{Surroundings, handle_tcp}

abbrev syn : Tcp
syn = record {
  src = record { ip = 168430081; port = 40000 };
  dst = record { ip = 16843009; port = 443 };
  sequence = 1000;
  acknowledgement = 0;
  window = 65535;
  is_rst = false;
  is_ack = false;
  is_syn = true;
  is_fin = false;
  mss = some 1460;
  wscale = some 7;
  is_sack_perm = true;
  sack = none;
}

abbrev surroundings : Surroundings
surroundings = record { sequence = 7000; proxy = ok tt; written = ok tt; now = 5 }

abbrev started : Redirector
started = new (State.new (λ n. ok tt) 1500 1 168430082) (λ ip. ip == 168430081) 168430082 none

abbrev redirector_of : Redirector → Handled → Redirector
redirector_of r (done (r', result)) = r'
redirector_of r panic = r
redirector_of r out_of_fuel = r

abbrev opened : Redirector
opened = redirector_of started (handle_tcp started syn [] surroundings)

opened_returned : handle_tcp started syn [] surroundings ≡ done (opened, ok tt)
unfolding handle_tcp new Rx.new Tx.shift_left Tx.new Streams.open_stream same_pair same_addr
    Packet.send_tcp_ack_syn State.set_src_mtu State.clean_up State.new Stream.connect
opened_returned = refl

-- Three bytes are in flight towards the source.
abbrev sending : TcpTxState
sending = record {
  src = syn.src;
  dst = syn.dst;
  sequence = 103;
  acknowledgement = 1001;
  window = 6;
  send_wscale = none;
  sack_perm = true;
  sacks = none;
  send_window = 65535;
  cache = record {
    buffer = 1 ∷ 2 ∷ 3 ∷ 0 ∷ [];
    capacity = 65535;
    sequence = 100;
    head = 0;
    size = 3;
    clocks = (100, record { instant = 0; timeout = 1000000000 }) ∷ [];
    retrans = none;
  };
  cache_syn = none;
  cache_fin = none;
  cache_fin_retrans = false;
  queue = [];
  queue_fin = false;
  rto = 1000;
  srtt = none;
  rttvar = none;
}

sending-IsValid : Valid.IsValid sending
sending-IsValid = record {
  cache = omega arith;
  sequence_in = omega arith;
  acknowledgement_in = omega arith;
  rto_low = omega arith;
  rto_high = omega arith;
  timed = tt;
  sacks = tt;
}

abbrev receiving : TcpRxState
receiving = record {
  src = syn.src;
  dst = syn.dst;
  recv_next = 1001;
  last_acknowledgement = 100;
  duplicate = 0;
  last_retrans = none;
  wscale = 0;
  sack_perm = true;
  cache = record { buffer = []; capacity = 6; sequence = 1001; head = 0; size = 0; edges = [] };
  fin_sequence = none;
}

receiving-IsValid : Window.Laws.IsValid receiving.cache
receiving-IsValid = omega arith

abbrev worker : StreamWorker
worker = record {
  dst = syn.dst;
  stream_tx = some tt;
  is_write_closed = false;
  is_read_closed = false;
}

abbrev established : Redirector
established = record started {
  tx = State.set_state started.tx syn.dst syn.src sending;
  streams = insert (syn.src, syn.dst) worker started.streams;
  states = insert (syn.src, syn.dst) receiving started.states;
}

abbrev data_packet : Tcp
data_packet = record syn {
  sequence = 1001;
  acknowledgement = 102;
  is_ack = true;
  is_syn = false;
  mss = none;
  wscale = none;
}

handle_tcp_in_order_example :
    (r'' : Redirector) × (result : Result (Unit {0})) × (handle_tcp established data_packet
        (8 ∷ 9 ∷ [])
        surroundings
      ≡ done (r'', result))
    × IsAnswered established data_packet receiving (left_by sending.cache 102 ++ []) 2 r''
unfolding new same_pair same_addr State.set_state State.new Stream.send
    pcap2socks.Forwarder.Segments.mtu_of
handle_tcp_in_order_example =
    handle_tcp_in_order established data_packet receiving worker (8 ∷ 9 ∷ []) sending surroundings
      refl refl refl refl refl refl refl refl refl sending-IsValid (omega arith) (omega arith)
      (omega arith) (omega arith) (omega arith) receiving-IsValid refl refl refl (omega arith)
      (omega arith) (omega arith) (omega arith) (omega arith)
