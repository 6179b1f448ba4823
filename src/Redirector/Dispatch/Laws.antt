-- ===== src/Redirector/Dispatch/Laws.antt =====
-- The connections of the redirector, and the frames that it handles.
use pcap2socks.Base.{ℕ, refl, Option, none, some, inl, inr, List, Run-cases, Result, All}
use pcap2socks.Redirector.Tcp.Linked.{IsLinked, Alike-IsLinked}
use pcap2socks.Redirector.Tcp.Reach.{All_of, join-Alike, tx-IsLinked, handle_tcp-IsLinked}
use pcap2socks.Redirector.Udp.{handle_udp}
use pcap2socks.Redirector.Tcp.Handle.{handle_tcp}
use pcap2socks.Redirector.Udp.Lru.{LruCache}
use pcap2socks.Redirector.Icmp.{handle_icmpv4}
use pcap2socks.Redirector.Dispatch.{
  Layers, icmpv4_layer, tcp_layer, udp_layer, LayerParsers, Indicator, FrameSurroundings, Whole,
  Served, handle_transport, handle_ipv4,
}
use pcap2socks.Redirector.Udp.Laws.{IsValid, IsFresh, handle_udp_run}
use pcap2socks.Redirector.Icmp.Keeps.{Kept, handle_icmpv4-Kept}
use pcap2socks.Redirector.Dispatch.Keeps.{OfState, handle_ipv4-keeps}

module _ {L : LruCache} where
  -- If the handler returns, its connections are linked.
  abbrev pub LinkedWhole : Served L → Type 0
  LinkedWhole run = All (OfState (λ w. IsLinked w.redirector)) run

  handle_transport-IsLinked :
      (p : LayerParsers) (w : Whole L) (transport : Option Layers) (payload : List ℕ)
      (e : FrameSurroundings)
      → IsLinked w.redirector
      → LinkedWhole (handle_transport p w transport payload e)
  unfolding handle_transport
  handle_transport-IsLinked p w none payload e linked = linked
  handle_transport-IsLinked p w (some (icmpv4_layer icmpv4)) payload e linked =
      elim (Run-cases (handle_icmpv4 p.within (w.redirector.tx, w.udp) icmpv4)) [
        | inl (inl e) ↦ rw e tt
        | inl (inr e) ↦ rw e tt
        | inr (((tx, udp), result), e) ↦
            let kept =
              All_of (λ (parts, result). Kept w.redirector.tx w.udp parts) _ ((tx, udp), result)
                (handle_icmpv4-Kept p.within w.redirector.tx w.udp icmpv4) e in
            rw e (tx-IsLinked w.redirector tx (λ k. rw (kept.0) refl) linked)
      ]
  handle_transport-IsLinked p w (some (tcp_layer tcp)) payload e linked =
      elim (Run-cases (handle_tcp w.redirector tcp payload e.streams)) [
        | inl (inl e1) ↦ rw e1 tt
        | inl (inr e1) ↦ rw e1 tt
        | inr ((r, result), e1) ↦ rw e1 (
            All_of (λ (r, result). IsLinked r) _ _
              (handle_tcp-IsLinked w.redirector tcp payload e.streams linked) e1)
      ]
  handle_transport-IsLinked p w (some (udp_layer src dst)) payload e linked =
      elim (Run-cases (handle_udp w.udp src dst payload e.bound e.sent)) [
        | inl (inl e1) ↦ rw e1 tt
        | inl (inr e1) ↦ rw e1 tt
        | inr ((udp, call, result), e1) ↦ rw e1 linked
      ]

  -- Whatever a frame holds, with linked connections, those that its handler returns are linked: a
  -- stream stands with a state for each direction, and what is acknowledged to its source is what
  -- was received from it; without a stream, there is no state from the source.
  pub handle_ipv4-IsLinked :
      (p : LayerParsers) (w : Whole L) (indicator : Indicator) (frame : List ℕ)
      (e : FrameSurroundings)
      → IsLinked w.redirector
      → LinkedWhole (handle_ipv4 p w indicator frame e)
  handle_ipv4-IsLinked p w indicator frame e linked =
      handle_ipv4-keeps p e (λ w. IsLinked w.redirector) (λ w. IsLinked w.redirector) (λ w h. h)
        (λ w frags h. h)
        (λ w src addr h. Alike-IsLinked w.redirector _ (join-Alike w.redirector src addr) h)
        (λ w transport payload h. handle_transport-IsLinked p w transport payload e h) w indicator
        frame linked

  -- The connections are linked, and the local ports are valid.
  abbrev pub IsSound : Whole L → Type 0
  IsSound w = IsLinked w.redirector × IsValid w.udp

  -- And a new local port is none in use.
  abbrev pub IsReady : Result ℕ → Whole L → Type 0
  IsReady bound w = IsLinked w.redirector × IsValid w.udp × IsFresh w.udp bound

  handle_transport-IsSound :
      (p : LayerParsers) (w : Whole L) (transport : Option Layers) (payload : List ℕ)
      (e : FrameSurroundings)
      → IsReady e.bound w
      → All (OfState IsSound) (handle_transport p w transport payload e)
  unfolding handle_transport
  handle_transport-IsSound p w none payload e (linked, v, fresh) = (linked, v)
  handle_transport-IsSound p w (some (icmpv4_layer icmpv4)) payload e (linked, v, fresh) =
      elim (Run-cases (handle_icmpv4 p.within (w.redirector.tx, w.udp) icmpv4)) [
        | inl (inl e1) ↦ rw e1 tt
        | inl (inr e1) ↦ rw e1 tt
        | inr (((tx, udp), result), e1) ↦
            let kept =
              All_of (λ (parts, result). Kept w.redirector.tx w.udp parts) _ ((tx, udp), result)
                (handle_icmpv4-Kept p.within w.redirector.tx w.udp icmpv4) e1 in
            rw e1 (tx-IsLinked w.redirector tx (λ k. rw (kept.0) refl) linked, kept.1 v)
      ]
  handle_transport-IsSound p w (some (tcp_layer tcp)) payload e (linked, v, fresh) =
      elim (Run-cases (handle_tcp w.redirector tcp payload e.streams)) [
        | inl (inl e1) ↦ rw e1 tt
        | inl (inr e1) ↦ rw e1 tt
        | inr ((r, result), e1) ↦ rw e1 (
          All_of (λ (r, result). IsLinked r) _ (r, result)
              (handle_tcp-IsLinked w.redirector tcp payload e.streams linked) e1,
          v,
        )
      ]
  handle_transport-IsSound p w (some (udp_layer src dst)) payload e (linked, v, fresh) =
      let (udp, call, result, returned, v', q, h) =
        handle_udp_run src dst payload e.bound e.sent v fresh in
      rw returned (linked, v')

  -- Whatever a frame holds, with linked connections, valid local ports and a new port that is none
  -- in use, those that its handler returns are linked and valid.
  pub handle_ipv4-IsSound :
      (p : LayerParsers) (w : Whole L) (indicator : Indicator) (frame : List ℕ)
      (e : FrameSurroundings)
      → IsReady e.bound w
      → All (OfState IsSound) (handle_ipv4 p w indicator frame e)
  handle_ipv4-IsSound p w indicator frame e ready =
      handle_ipv4-keeps p e (IsReady e.bound) IsSound (λ w (linked, v, fresh). (linked, v))
        (λ w frags h. h)
        (λ w src addr (linked, v, fresh).
          (Alike-IsLinked w.redirector _ (join-Alike w.redirector src addr) linked, v, fresh))
        (λ w transport payload h. handle_transport-IsSound p w transport payload e h) w indicator
        frame ready
