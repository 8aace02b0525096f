-- ===== src/Control/Daemon/Launch.antt =====
-- What is left of a launch that waits for its guest.
use microvm_terminal.Base.{◌≡◌, refl, sym, ap, subst, true, false, none, Bytes, arith}
use microvm_terminal.Base.Map
use microvm_terminal.Base.Map.{lookup-delete}
use microvm_terminal.Base.Result.{Result, ok, err}
use microvm_terminal.Base.Text.{bytes-eq, bytes_eq_iff}
use microvm_terminal.Control.Manager
use microvm_terminal.Control.Manager.{
  Manager, World, Session, Removal, destroyed, destroy, process_ended,
}
use microvm_terminal.Control.Manager.Endings.{Started, Ends, failed, started, create-Ends}
use microvm_terminal.Control.Manager.Holdings.{SameHoldings}
use microvm_terminal.Control.Manager.Lifetimes.{destroy-lookup, destroy-Started}
use microvm_terminal.Control.Netalloc.{Lease, alloc}
use microvm_terminal.Control.Daemon.{
  Event, handshake, deadline, closed, LaunchError, awaited, launch, wait_ready,
}

-- How a launch ends.
pub data Launched (m : Manager) (w : World) (ev : Event) (r : Manager × Result LaunchError Session)
    : Type 0 where
  given_up : (e : LaunchError) → r.1 ≡ err e → SameHoldings w.removal m r.0 → Launched m w ev r
  alive : (s : Session) → r.1 ≡ ok s → ev ≡ handshake false → Started m w r.0 s → Launched m w ev r
  ended_since :
      (s : Session)
      → r.1 ≡ ok s
      → ev ≡ handshake true
      → SameHoldings w.removal m r.0
      → Launched m w ev r

-- A machine that is known no more cannot be destroyed again.
destroy-destroy :
    (m : Manager) (id : Bytes) (r : Removal)
    → (destroy (destroy m id r).0 id r).0 ≡ (destroy m id r).0
unfolding destroy
destroy-destroy m id r =
    let gone : Map.lookup id (destroy m id r).0.sessions ≡ none =
      ground (arith, destroy-lookup m id id r, bytes_eq_iff id id) in
    ap (λ o. (destroyed (destroy m id r).0 id r o).0) gone

-- The machine is destroyed once, and once more.
module _ (m : Manager) (w : World) (m' : Manager) (s : Session)
    (new : Map.lookup w.sid m.sessions ≡ none) (dir : Map.lookup w.sid m.dirs ≡ none)
    (st : Started m w m' s) where
  gone-SameHoldings : SameHoldings w.removal m (destroy m' s.id w.removal).0
  gone-SameHoldings =
      subst (λ id. SameHoldings w.removal m (destroy m' id w.removal).0) (sym st.id)
        (destroy-Started m w w.removal m' s new dir st).1

  twice-SameHoldings :
      SameHoldings w.removal m (destroy (destroy m' s.id w.removal).0 s.id w.removal).0
  twice-SameHoldings =
      subst (SameHoldings w.removal m) (sym (destroy-destroy m' s.id w.removal)) gone-SameHoldings

  Started-Launched : (ev : Event) → Launched m w ev (awaited w.removal (m', ok s) ev)
  unfolding wait_ready process_ended
  Started-Launched (handshake false) = alive s refl refl st
  Started-Launched (handshake true) = ended_since s refl refl gone-SameHoldings
  Started-Launched (deadline false) = given_up _ refl gone-SameHoldings
  Started-Launched (deadline true) = given_up _ refl twice-SameHoldings
  Started-Launched closed = given_up _ refl twice-SameHoldings

create-Launched :
    (m : Manager) (w : World) (ev : Event) (r : Manager × Result Manager.Error Session)
    → Map.lookup w.sid m.sessions ≡ none
    → Map.lookup w.sid m.dirs ≡ none
    → Ends m w r
    → Launched m w ev (awaited w.removal r ev)
create-Launched m w ev (m', err e) new dir (failed e' h same) = given_up _ refl same
create-Launched m w ev (m', ok s) new dir (failed e' h same) = absurd (ground (arith, h))
create-Launched m w ev (m', err e) new dir (started s h st) = absurd (ground (arith, h))
create-Launched m w ev (m', ok s) new dir (started s' h st) =
    Started-Launched m w m' s new dir (subst (Started m w m') (ground (arith, h)) st) ev

-- A launch that returns an error leaves the machines and the addresses in use as they were, and the
-- TAP devices and the directories too, but for new ones whose removal failed: the guest that does not
-- answer in time and the machine that ends at once included. One that returns a session has had the
-- handshake of its guest, and its machine runs, or its process has ended before the wait was over and
-- everything is as after an error. This holds when the id and the names are new and a TAP device that
-- was added can be attached and set up.
pub launch-Launched :
    (m : Manager) (w : World) (ev : Event)
    → Map.lookup w.sid m.sessions ≡ none
    → Map.lookup w.sid m.dirs ≡ none
    → ((l : Lease) → (alloc m.allocator).1 ≡ ok l → Map.lookup l.tap m.taps ≡ none)
    → w.tap_attaches ≡ true
    → w.tap_goes_up ≡ true
    → Launched m w ev (launch m w ev)
unfolding launch
launch-Launched m w ev new dir tap attaches up =
    create-Launched m w ev (Manager.create m w) new dir (create-Ends m w dir tap attaches up)
