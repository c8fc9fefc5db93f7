-- ===== src/Daemon/Transport/CanSockets.antt =====
-- The sockets of `CanTransportBag::make` (src/daemon/engine/cyphal/can_transport_bag.hpp).
use yakut_native.Base.{
  ℕ, ◌≤◌, ◌≡◌, ap, List, [], Option, none, some, ◌==◌, if_intro, length, arith, Text,
}
use yakut_native.Posix.{Outcome}
use yakut_native.Daemon.Media.{max_media}
use yakut_native.Daemon.Media.Can.{CanMedia, Sockets, reset, parse}
use yakut_native.Daemon.Media.Can.Conservation.{Balanced, reset-Balanced, parse-Conserved}
use yakut_native.Daemon.Transport.{can_prefix, join_ifaces, can_result, can_bag, can_made, can_make}

-- The media of a bag.
abbrev pub media_of : {T : Type 0} → Option (T × List CanMedia) → List CanMedia
media_of none = []
media_of (some (transport, media)) = media

module _ {T : Type 0} (make_transport : List CanMedia → Option T) (n : ℕ) where
  -- At most three media, and what was opened is held or closed.
  abbrev Kept : Option (T × List CanMedia) × Sockets → Type 0
  Kept (bag, w) = Balanced n (media_of bag, w) × (length (media_of bag) ≤ max_media)

  can_result-Kept :
      (media : List CanMedia) (w : Sockets) (o : Option T)
      → Balanced n (media, w)
      → length media ≤ max_media
      → Kept (can_result media w o)
  unfolding can_result
  can_result-Kept media w none b h = (reset-Balanced n media w b, omega arith)
  can_result-Kept media w (some transport) b h = (b, h)

  can_bag-Kept :
      (media : List CanMedia) (w : Sockets) (index : ℕ)
      → Balanced n (media, w)
      → length media ≤ max_media
      → Kept (can_bag make_transport ((media, w), index))
  unfolding can_bag
  can_bag-Kept media w index b h =
      if_intro Kept (index == 0) (none, reset media w) (can_result media w (make_transport media))
        (λ _. (reset-Balanced n media w b, omega arith))
        (λ _. can_result-Kept media w (make_transport media) b h)

  -- Making a CAN transport ends, whatever the interfaces and the outcomes of the driver's calls. If each
  -- descriptor that was opened before was closed as often, then after it each descriptor is as often held
  -- by the media of the bag, at most three, or closed, as it was opened: no socket is lost or closed
  -- twice, and without a bag all are closed.
  pub can_make-Conserved :
      (opens : ℕ → Text → Outcome ℕ) (ifaces : List Text) (w : Sockets)
      → Balanced n ([], w)
      → (bag : Option (T × List CanMedia)) × (w' : Sockets) × (can_make make_transport opens ifaces
            w
          ≡ some (bag, w'))
        × Balanced n (media_of bag, w')
        × (length (media_of bag) ≤ max_media)
  unfolding can_make can_made
  can_make-Conserved opens ifaces w b =
      go (parse-Conserved n opens (join_ifaces can_prefix ifaces) [] w b)
    where
      go :
          (r : (List CanMedia × Sockets) × ℕ) × (parse opens (join_ifaces can_prefix ifaces) [] w
              ≡ some r)
            × Balanced n r.0
            × (length r.0.0 ≡ r.1)
            × (r.1 ≤ max_media)
          → (bag : Option (T × List CanMedia)) × (w' : Sockets) × (can_make make_transport opens
                ifaces w
              ≡ some (bag, w'))
            × Balanced n (media_of bag, w')
            × (length (media_of bag) ≤ max_media)
      go (r, parsed, b', filled, few) = (
        (can_bag make_transport r).0,
        (can_bag make_transport r).1,
        ap (can_made make_transport) parsed,
        (kept r b' filled few).0,
        (kept r b' filled few).1,
      )
        where
          kept :
              (q : (List CanMedia × Sockets) × ℕ)
              → Balanced n q.0
              → length q.0.0 ≡ q.1
              → q.1 ≤ max_media
              → Kept (can_bag make_transport q)
          kept q bq fq hq = can_bag-Kept q.0.0 q.0.1 q.1 bq (omega (arith, fq, hq))
