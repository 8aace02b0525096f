-- ===== src/Agent/Sizes.antt =====
-- The sizes that the session sends, on their way to the console of the machine, and the waits between
-- two dials.
use microvm_terminal.Base.{
  ℕ, zero, suc, ◌*◌, ◌^◌, ◌≡◌, ◌<◌, refl, ap, ◌∙◌, Bool, true, false, some, List, [], ◌∷◌, ◌++◌,
  bytes, bytes_eq, nat_eq, ltb, if◌then◌else◌, arith,
}
use microvm_terminal.Base.Int64.{pos, to_bits}
use microvm_terminal.Agent.{
  Tty, Frame, to_uint16, apply_winsize, serve_frames, second, next_backoff, backoff_after,
}
use microvm_terminal.Control.Guest.{
  Geometry, Channel, is_empty, set_window, write_frame, send_to_guest, set_guest_conn, join, replay,
  resize,
}

-- resizeMessage, as the agent decodes it.
unfoldable pub resize_message : Geometry → Frame
resize_message g = record {
  kind = bytes "resize";
  cols = some (pos g.cols);
  rows = some (pos g.rows);
}

-- The frames that were written to a connection, on a console that takes every size.
unfoldable pub frames_on : ℕ → List (ℕ × Geometry) → List (Frame × Bool)
frames_on conn [] = []
frames_on conn ((k, g) ∷ more) =
    let rest = frames_on conn more in
    if nat_eq k conn then (resize_message g, true) ∷ rest else rest

abbrev pub Fits : Geometry → Type 0
Fits g = (is_empty g ≡ false) × (g.cols < 2 ^ 16) × (g.rows < 2 ^ 16)

serve_frames-append :
    (a b : List (Frame × Bool)) (tty : Tty)
    → serve_frames tty (a ++ b) ≡ serve_frames (serve_frames tty a) b
unfolding serve_frames
serve_frames-append [] b tty = refl
serve_frames-append ((f, sets) ∷ a) b tty =
    serve_frames-append a b (serve_frames tty ((f, sets) ∷ []))

frames_on-snoc :
    (conn : ℕ) (g : Geometry) (before : List (ℕ × Geometry))
    → frames_on conn (before ++ (conn, g) ∷ [])
      ≡ frames_on conn before ++ (resize_message g, true) ∷ []
unfolding frames_on
frames_on-snoc conn g [] = ground arith
frames_on-snoc conn g ((k, x) ∷ before) = ground (arith, frames_on-snoc conn g before)

to_uint16_fits : (n : ℕ) → n < 2 ^ 16 → to_uint16 (pos n) ≡ n
unfolding to_uint16 to_bits
to_uint16_fits n h = ground arith

applied :
    (tty : Tty) (g : Geometry) → Fits g → serve_frames tty ((resize_message g, true) ∷ []) ≡ some g
unfolding serve_frames resize_message apply_winsize bytes_eq
applied tty g (full, c, r) = rw (to_uint16_fits g.cols c, to_uint16_fits g.rows r, full)

-- A frame that is written last sets the console.
pub serve_frames-write_frame :
    (c : Channel) (conn : ℕ) (g : Geometry) (tty : Tty)
    → Fits g
    → serve_frames tty (frames_on conn (write_frame c conn g).frames) ≡ some g
unfolding write_frame
serve_frames-write_frame c conn g tty fits =
    ap (serve_frames tty) (frames_on-snoc conn g c.frames)
    ∙ serve_frames-append (frames_on conn c.frames) ((resize_message g, true) ∷ []) tty
    ∙ applied (serve_frames tty (frames_on conn c.frames)) g fits

steady : (n : ℕ) → backoff_after (suc (suc (suc (suc n)))) ≡ 16 * second
unfolding backoff_after next_backoff
steady zero = refl
steady (suc n) = ap next_backoff (steady n)

-- The wait before the agent dials again doubles from one second to sixteen, and stays there.
backoff_after_lem : (n : ℕ) → backoff_after n ≡ 2 ^ (if ltb n 4 then n else 4) * second
unfolding backoff_after next_backoff
backoff_after_lem zero = refl
backoff_after_lem (suc zero) = refl
backoff_after_lem (suc (suc zero)) = refl
backoff_after_lem (suc (suc (suc zero))) = refl
backoff_after_lem (suc (suc (suc (suc n)))) =
    let late : ltb (suc (suc (suc (suc n)))) 4 ≡ false = ground arith in rw late (steady n)

-- The frame that a size which is not zero is sent in.
pub resize-attached :
    (c : Channel) (conn : ℕ) (g : Geometry)
    → is_empty g ≡ false
    → c.guest_conn ≡ some conn
    → (resize c g).0 ≡ write_frame (set_window c g) conn g
unfolding resize send_to_guest set_window
resize-attached c conn g full attached = rw full (rw attached refl)

replay-join :
    (c : Channel) (later : ℕ)
    → is_empty c.window ≡ false
    → replay (join c later) ≡ write_frame (join c later) later c.window
unfolding replay join set_guest_conn send_to_guest
replay-join c later full = rw full refl

-- With a guest attached, a size that is not zero and fits its fields is on the console of the machine
-- once the guest has served its frames; and so it is on that of any guest that attaches later.
serve_frames-resize :
    (c : Channel) (conn later : ℕ) (g : Geometry) (tty : Tty)
    → Fits g
    → c.guest_conn ≡ some conn
    → (serve_frames tty (frames_on conn (resize c g).0.frames) ≡ some g)
      × (serve_frames tty (frames_on later (replay (join (resize c g).0 later)).frames) ≡ some g)
unfolding set_window write_frame
serve_frames-resize c conn later g tty fits attached =
    let now = resize-attached c conn g fits.0 attached in
    let after = set_window c g in
    (
      rw now (serve_frames-write_frame after conn g tty fits),
      rw (now, replay-join (write_frame after conn g) later fits.0)
          (serve_frames-write_frame (join (write_frame after conn g) later) later g tty fits),
    )
