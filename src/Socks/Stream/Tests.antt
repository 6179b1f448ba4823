-- ===== src/Socks/Stream/Tests.antt =====
-- Examples for `StreamWorker`.
use pcap2socks.Base.{◌≡◌, refl, false, some, [], ◌∷◌}
use pcap2socks.Net.{SocketAddr}
use pcap2socks.Socks.Stream.{StreamWorker, forward, close_stream}
use pcap2socks.Socks.Stream.Laws.{serve, reads, serve_stream}

abbrev host : SocketAddr
host = record { ip = 16843009; port = 443 }

abbrev opened : StreamWorker
opened = record { dst = host; stream_tx = some tt; is_write_closed = false; is_read_closed = false }

serve_stream_example :
    serve opened (record { recv_zero = 0; is_done = false }) (reads ((1, 2 ∷ []) ∷ (3, []) ∷ []) 4)
    ≡ forward (1 ∷ 2 ∷ []) ∷ forward (3 ∷ []) ∷ close_stream ∷ []
serve_stream_example = serve_stream opened ((1, 2 ∷ []) ∷ (3, []) ∷ []) 4 refl
