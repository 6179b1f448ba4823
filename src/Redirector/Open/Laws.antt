-- ===== src/Redirector/Open/Laws.antt =====
-- The redirector as one machine: the frames that come, in any order with what the tasks of the
-- streams do. Its connections stay linked, and its local ports valid.
use pcap2socks.Base.{
  ℕ, ◌≡◌, Bool, Option, none, some, Option-cases, inl, inr, List, Run, done, panic, out_of_fuel,
  Result, All, empty_map,
}
use pcap2socks.Net.{Ipv4Addr, HardwareAddr}
use pcap2socks.Packet.Ipv4.{
  LayerKind, ethernet_kind, arp_kind, ipv4_kind, icmpv4_kind, tcp_kind, udp_kind,
}
use pcap2socks.Forwarder.State
use pcap2socks.Redirector.Tcp
use pcap2socks.Redirector.Tcp.{Redirector, Arp}
use pcap2socks.Redirector.Tcp.Reach.{
  All_of, TaskStep, TaskStep-IsLinked, new-IsLinked, handle_arp-IsLinked,
}
use pcap2socks.Redirector.Udp
use pcap2socks.Redirector.Udp.{Sent}
use pcap2socks.Redirector.Udp.Lru.{LruCache}
use pcap2socks.Redirector.Udp.Laws.{IsFresh, new-IsValid}
use pcap2socks.Redirector.Dispatch.{Whole, FrameSurroundings}
use pcap2socks.Redirector.Dispatch.Keeps.{OfState}
use pcap2socks.Redirector.Dispatch.Laws.{IsSound, IsReady, handle_ipv4-IsSound}
use pcap2socks.Redirector.Open.{
  FrameParsers, Parsed, arp_of, indicator_of, serve_arp, drop_result, parse, network_kind,
  handle_network, handle_frame,
}

module _ {L : LruCache} where
  abbrev AfterFrame : Whole L × Option Sent → Type 0
  AfterFrame (w, call) = IsSound w

  drop_result-IsSound :
      (run : Run (Whole L × Option Sent × Result (Unit {0})))
      → All (OfState IsSound) run
      → All AfterFrame (drop_result run)
  drop_result-IsSound (done (w, call, result)) h = h
  drop_result-IsSound panic h = tt
  drop_result-IsSound out_of_fuel h = tt

  serve_arp-IsSound : (w : Whole L) (arp : Option Arp) → IsSound w → IsSound (serve_arp w arp)
  unfolding serve_arp
  serve_arp-IsSound w none h = h
  serve_arp-IsSound w (some arp) (linked, v) = (handle_arp-IsLinked w.redirector arp linked, v)

  handle_network-IsSound :
      (p : FrameParsers) (w : Whole L) (parsed : Parsed) (kind : Option LayerKind) (frame : List ℕ)
      (e : FrameSurroundings)
      → IsReady e.bound w
      → All AfterFrame (handle_network p w parsed kind frame e)
  unfolding handle_network
  handle_network-IsSound p w parsed none frame e (linked, v, fresh) = (linked, v)
  handle_network-IsSound p w parsed (some arp_kind) frame e (linked, v, fresh) =
      serve_arp-IsSound w (arp_of parsed.network) (linked, v)
  handle_network-IsSound p w parsed (some ipv4_kind) frame e ready =
      drop_result-IsSound _
        (handle_ipv4-IsSound p.layers w (indicator_of parsed parsed.network) frame e ready)
  handle_network-IsSound p w parsed (some ethernet_kind) frame e ready = tt
  handle_network-IsSound p w parsed (some icmpv4_kind) frame e ready = tt
  handle_network-IsSound p w parsed (some tcp_kind) frame e ready = tt
  handle_network-IsSound p w parsed (some udp_kind) frame e ready = tt

  handle_frame-IsSound :
      (p : FrameParsers) (w : Whole L) (frame : List ℕ) (e : FrameSurroundings)
      → IsReady e.bound w
      → All AfterFrame (handle_frame p w frame e)
  unfolding handle_frame
  handle_frame-IsSound p w frame e ready = elim (Option-cases (p.ethernet_packet frame)) [
    | inl missing ↦ rw (missing, handle_frame) (ready.0, ready.1)
    | inr (packet, there) ↦
        rw (there, handle_frame)
          (handle_network-IsSound p w (parse p packet) (network_kind (parse p packet).network) frame
            e ready)
  ]

-- `new`, with no local port and no fragment.
abbrev pub begun : (L : LruCache) → Redirector → Whole L
begun L redirector = record { redirector = redirector; udp = Udp.new; frags = empty_map }

-- From the start, by frames that are handled without a panic, each with a new local port that is none
-- in use, and by the tasks of the streams.
pub data Reached (L : LruCache) (p : FrameParsers) : Whole L → Type 0 where
  start :
      (outcome : ℕ → Result (Unit {0})) (mtu : ℕ) (local_hardware_addr : HardwareAddr)
      (local_ip_addr : Ipv4Addr) (contains : Ipv4Addr → Bool) (gw_ip_addr : Option Ipv4Addr)
      → Reached L p (
          begun L (
            Tcp.new
              (State.new outcome mtu local_hardware_addr local_ip_addr)
              contains
              local_ip_addr
              gw_ip_addr))
  frame_came :
      {w w' : Whole L} (frame : List ℕ) (e : FrameSurroundings) (call : Option Sent)
      → Reached L p w
      → IsFresh w.udp e.bound
      → handle_frame p w frame e ≡ done (w', call)
      → Reached L p w'
  task_ran :
      {w : Whole L} {r' : Redirector}
      → Reached L p w
      → TaskStep w.redirector r'
      → Reached L p (record w { redirector = r' })

-- From the start, after any frames that were handled without a panic, with a new local port that is
-- none in use each, and any steps of the tasks of the streams, in any order: a stream stands with a
-- state for each direction, and what is acknowledged to its source is what was received from it;
-- without a stream, there is no state from the source. The local ports are valid: a port that maps
-- to a source is the one that the source maps to, has a worker, and there are no more than fit.
pub Reached-IsSound : {L : LruCache} {p : FrameParsers} {w : Whole L} → Reached L p w → IsSound w
Reached-IsSound (start outcome mtu addr ip contains gw) =
    (new-IsLinked (State.new outcome mtu addr ip) contains ip gw, new-IsValid)
Reached-IsSound {L} {p} (frame_came {w} {w'} frame e call before fresh returned) =
    let (linked, v) = Reached-IsSound before in
    All_of (λ (w, call). IsSound w) _ (w', call)
      (handle_frame-IsSound p w frame e (linked, v, fresh)) returned
Reached-IsSound (task_ran before step) =
    let (linked, v) = Reached-IsSound before in (TaskStep-IsLinked step linked, v)
