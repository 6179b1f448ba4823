-- ===== src/Redirector/Dispatch/Keeps.antt =====
-- What the handlers of the transport layers keep is kept by the handler of a frame: a property
-- before, and one after, that groups of fragments and a hardware address do not touch.
use pcap2socks.Base.{
  ℕ, ◌+◌, Option, none, some, Option-cases, inl, inr, List, length, Run-cases, slice, Result, All,
  if_both,
}
use pcap2socks.Packet.Ipv4
use pcap2socks.Packet.Ipv4.{Ipv4}
use pcap2socks.Packet.Defrag.{Fragmentation, defrag}
use pcap2socks.Redirector.Tcp.{join, is_from_source}
use pcap2socks.Redirector.Udp.Lru.{LruCache}
use pcap2socks.Redirector.Dispatch.{
  Layers, LayerParsers, Indicator, FrameSurroundings, Whole, handle_transport, concatenate, len,
  content_len, serve_completed, serve_frame, handle_ipv4,
}
use pcap2socks.Net.{Ipv4Addr, HardwareAddr}
use pcap2socks.Packet.Defrag.{Defraggler}
use pcap2socks.Redirector.Udp.{Sent}

module _ {L : LruCache} where
  -- A property of the state that a handler returns.
  abbrev pub OfState : (Whole L → Type 0) → Whole L × Option Sent × Result (Unit {0}) → Type 0
  OfState P (w, call, result) = P w

module _ {L : LruCache} (p : LayerParsers) (e : FrameSurroundings) (Pre Post : Whole L → Type 0)
    (weaken : (w : Whole L) → Pre w → Post w)
    (grouped : (w : Whole L) (frags : Defraggler) → Pre w → Pre (record w { frags = frags }))
    (joined : (w : Whole L) (src : Ipv4Addr) (addr : HardwareAddr)
      → Pre w
      → Pre (record w { redirector = join w.redirector src addr }))
    (transported : (w : Whole L) (transport : Option Layers) (payload : List ℕ)
      → Pre w
      → All (OfState Post) (handle_transport p w transport payload e)) where
  abbrev After : Whole L × Option Sent × Result (Unit {0}) → Type 0
  After = OfState Post

  serve_completed-keeps :
      (w : Whole L) (frag : Option Fragmentation) → Pre w → All After (serve_completed p w frag e)
  unfolding serve_completed
  serve_completed-keeps w none pre = weaken w pre
  serve_completed-keeps w (some frag) pre = elim (Run-cases (concatenate p frag)) [
    | inl (inl e1) ↦ rw e1 tt
    | inl (inr e1) ↦ rw e1 tt
    | inr ((transport, payload), e1) ↦ rw e1 (transported w transport payload pre)
  ]

  serve_frame-keeps :
      (w : Whole L) (ipv4 : Ipv4) (indicator : Indicator) (frame : List ℕ)
      → Pre w
      → All After (serve_frame p w ipv4 indicator frame e)
  unfolding serve_frame
  serve_frame-keeps w ipv4 indicator frame pre =
      elim (Run-cases (slice frame 0 (content_len indicator))) [
        | inl (inl e1) ↦ rw e1 tt
        | inl (inr e1) ↦ rw e1 tt
        | inr (content, e1) ↦ rw e1 (
            if_both (All After) (Ipv4.is_fragment ipv4) _ _
              (elim (Run-cases (slice content (14 + indicator.ipv4_len) (length content))) [
                | inl (inl e2) ↦ rw e2 tt
                | inl (inr e2) ↦ rw e2 tt
                | inr (payload, e2) ↦
                    rw e2 (elim (Run-cases (defrag w.frags ipv4 payload e.streams.now)) [
                      | inl (inl e3) ↦ rw e3 tt
                      | inl (inr e3) ↦ rw e3 tt
                      | inr ((frags, completed), e3) ↦ rw e3 (
                          serve_completed-keeps (record w { frags = frags }) completed
                            (grouped w frags pre))
                    ])
              ])
              (elim (Run-cases (slice content (len indicator) (length content))) [
                | inl (inl e2) ↦ rw e2 tt
                | inl (inr e2) ↦ rw e2 tt
                | inr (payload, e2) ↦ rw e2 (transported w indicator.transport payload pre)
              ]))
      ]

  pub handle_ipv4-keeps :
      (w : Whole L) (indicator : Indicator) (frame : List ℕ)
      → Pre w
      → All After (handle_ipv4 p w indicator frame e)
  unfolding handle_ipv4
  handle_ipv4-keeps w indicator frame pre = elim (Option-cases indicator.ipv4) [
    | inl missing ↦ rw missing (weaken w pre)
    | inr (ipv4, there) ↦ rw there (
        if_both (All After) (is_from_source w.redirector ipv4.source) _ _
          (serve_frame-keeps
            (record w { redirector = join w.redirector ipv4.source indicator.src_hardware_addr })
            ipv4 indicator frame (joined w ipv4.source indicator.src_hardware_addr pre))
          (weaken w pre))
  ]
