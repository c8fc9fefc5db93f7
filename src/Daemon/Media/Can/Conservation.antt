-- ===== src/Daemon/Media/Can/Conservation.antt =====
-- The sockets of a collection of CAN media (src/daemon/engine/platform/can/can_media.hpp): what was opened is
-- held by one of its media, or closed.
use yakut_native.Base.{
  ℕ, ◌+◌, ◌≤◌, ◌≡◌, refl, ap, ◌∙◌, List, [], ◌∷◌, ◌++◌, false, some, ℤ, pos, negsuc, leb, if_intro,
  if◌then◌else◌, length, length-append, arith, Text,
}
use yakut_native.Posix.{Outcome, returned, failed}
use yakut_native.Io.OwnFd.Conservation.{weight, count}
use yakut_native.Daemon.Media.{max_media, visit, visit_all, for_each_field-fields, fields}
use yakut_native.Daemon.Media.Can.{
  CanMedia, Sockets, move_construct, MakeResult, made, platform_error, close, destroy, note_open,
  open_result, with_second, with_first, make, keep, emplace, reset, parse,
}

-- How often `n` is a descriptor of the media.
abbrev pub held : ℕ → List CanMedia → ℕ
held n [] = 0
held n (m ∷ ms) = weight n m.rx_fd + weight n m.tx_fd + held n ms

held-append :
    (n : ℕ) (ms : List CanMedia) (m : CanMedia)
    → held n (ms ++ m ∷ []) ≡ held n ms + weight n m.rx_fd + weight n m.tx_fd
held-append n [] m = omega arith
held-append n (k ∷ ms) m = omega (arith, held-append n ms m)

close-count :
    (n : ℕ) (fd : ℤ) (w : Sockets) → count n (close fd w).closed ≡ weight n fd + count n w.closed
unfolding close
close-count n (pos fd) w = refl
close-count n (negsuc k) w = omega arith

close-opened : (fd : ℤ) (w : Sockets) → (close fd w).opened ≡ w.opened
unfolding close
close-opened (pos fd) w = refl
close-opened (negsuc k) w = refl

-- What was opened is held or closed.
abbrev pub Balanced : ℕ → List CanMedia × Sockets → Type 0
Balanced n (media, w) = held n media + count n w.closed ≡ count n w.opened

-- The array is filled up to the index.
abbrev Filled : (List CanMedia × Sockets) × ℕ → Type 0
Filled ((media, w), index) = (length media ≡ index) × (index ≤ max_media)

module _ (n : ℕ) where
  destroy-Balanced :
      (m : CanMedia) (media : List CanMedia) (w : Sockets)
      → Balanced n (m ∷ media, w)
      → Balanced n (media, destroy m w)
  unfolding destroy
  destroy-Balanced m media w h = omega (
    arith,
    h,
    close-count n m.tx_fd (close m.rx_fd w),
    close-count n m.rx_fd w,
    ap (count n) (close-opened m.tx_fd (close m.rx_fd w) ∙ close-opened m.rx_fd w),
  )

  pub reset-Balanced :
      (media : List CanMedia) (w : Sockets) → Balanced n (media, w) → Balanced n ([], reset media w)
  unfolding reset
  reset-Balanced [] w h = h
  reset-Balanced (m ∷ media) w h = reset-Balanced media (destroy m w) (destroy-Balanced m media w h)

  second-Balanced :
      (media : List CanMedia) (rx : ℕ) (address : Text) (o : Outcome ℕ) (w : Sockets)
      → held n media + count n w.closed + weight n (pos rx) ≡ count n w.opened
      → Balanced n (keep media (with_second address rx o (note_open o w))).0
  unfolding keep with_second note_open close move_construct destroy
  second-Balanced media rx address (failed err) w h = omega (arith, h)
  second-Balanced media rx address (returned tx) w h = omega (
    arith,
    h,
    held-append n media (record { rx_fd = pos rx; tx_fd = pos tx; iface_address = address }),
  )

  module _ (opens : ℕ → Text → Outcome ℕ) where
    first-Balanced :
        (media : List CanMedia) (address : Text) (o : Outcome ℕ) (w : Sockets)
        → Balanced n (media, w)
        → Balanced n (keep media (with_first opens address o (note_open o w))).0
    unfolding keep with_first note_open
    first-Balanced media address (failed err) w h = h
    first-Balanced media address (returned rx) w h =
        second-Balanced media rx address (open_result opens address (note_open (returned rx) w))
          (note_open (returned rx) w) (omega (arith, h))

    emplace-Balanced :
        (index : ℕ) (address : Text) (s : List CanMedia × Sockets)
        → Balanced n s
        → Balanced n (emplace opens index address s).0
    unfolding emplace make
    emplace-Balanced index address (media, w) h =
        first-Balanced media address (open_result opens address w) w h

    keep-Filled :
        (media : List CanMedia) (r : MakeResult) (w w' : Sockets) (index : ℕ)
        → leb max_media index ≡ false
        → Filled ((media, w'), index)
        → Filled ((keep media (r, w)).0, if (keep media (r, w)).1 then index + 1 else index)
    unfolding keep move_construct
    keep-Filled media (made m) w w' index room h =
        (omega (arith, h.0, length-append media (m ∷ [])), ground (arith, room))
    keep-Filled media (platform_error err) w w' index room h = h

    visit-Filled :
        (f : Text) (s : (List CanMedia × Sockets) × ℕ)
        → leb max_media s.1 ≡ false
        → Filled s
        → Filled (visit (emplace opens) f s)
    unfolding visit emplace
    visit-Filled [] s room h = h
    visit-Filled (c ∷ f) ((media, w), index) room h =
        keep-Filled media (make opens (c ∷ f) w).0 (make opens (c ∷ f) w).1 w index room h

    visit-Balanced :
        (f : Text) (s : (List CanMedia × Sockets) × ℕ)
        → Balanced n s.0
        → Balanced n (visit (emplace opens) f s).0
    unfolding visit
    visit-Balanced [] s h = h
    visit-Balanced (c ∷ f) s h = emplace-Balanced s.1 (c ∷ f) s.0 h

    visit_all-Balanced :
        (fs : List Text) (s : (List CanMedia × Sockets) × ℕ)
        → Balanced n s.0
        → Filled s
        → Balanced n (visit_all (emplace opens) fs s).0 × Filled (visit_all (emplace opens) fs s)
    visit_all-Balanced [] s h v = (h, v)
    visit_all-Balanced (f ∷ fs) s h v =
        if_intro (λ t. Balanced n t.0 × Filled t) (leb max_media s.1) s
          (visit_all (emplace opens) fs (visit (emplace opens) f s)) (λ full. (h, v))
          (λ room.
            visit_all-Balanced fs (visit (emplace opens) f s) (visit-Balanced f s h)
              (visit-Filled f s room v))

    -- A parse ends, with at most three media. If
    -- each descriptor that was opened before is held or closed, as often as it was opened, then so it is
    -- after the parse, which closes the media that it replaces and the first socket of an
    -- interface whose second one fails: no socket is lost or closed twice.
    pub parse-Conserved :
        (text : Text) (media : List CanMedia) (w : Sockets)
        → Balanced n (media, w)
        → (r : (List CanMedia × Sockets) × ℕ) × (parse opens text media w ≡ some r)
          × Balanced n r.0
          × (length r.0.0 ≡ r.1)
          × (r.1 ≤ max_media)
    unfolding parse
    parse-Conserved text media w h = (
      visit_all (emplace opens) (fields text) (([], reset media w), 0),
      for_each_field-fields (emplace opens) text ([], reset media w),
      both.0,
      both.1.0,
      both.1.1,
    )
      where
        both :
            Balanced n (visit_all (emplace opens) (fields text) (([], reset media w), 0)).0
            × Filled (visit_all (emplace opens) (fields text) (([], reset media w), 0))
        both =
            visit_all-Balanced (fields text) (([], reset media w), 0) (reset-Balanced media w h)
              (refl, omega arith)
