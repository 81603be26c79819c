-- ===== src/Locks/Invariant.antt =====
-- The invariant of the lock table, kept by every move of every thread.
mod Defs
mod Retain
mod Release
mod Moves
pub use Defs.*
use Retain.{retain-Inv}
use Release.{release-Inv}
use Moves.{acquire-Inv, give_up-Inv, give_back-Inv}
use libvirt_rest_api.Base.{ℕ, ◌<◌, update}
use libvirt_rest_api.Locks.{Libvirt}
use libvirt_rest_api.Locks.System.{
  Position, Move, retain, acquire, give_up, give_back, release, System, Step, move, Reach, start,
  later,
}

pub Move-Inv :
    {n : ℕ} {l l' : Libvirt} {at : ℕ → Position} {i : ℕ} {p p' : Position}
    → Move l p l' p'
    → Inv n l at
    → Mover n at i p p'
    → Inv n l' (update at i p')
Move-Inv (retain name context) inv mv = retain-Inv inv name context mv
Move-Inv (acquire took) inv mv = acquire-Inv inv took mv
Move-Inv (give_up _) inv mv = give_up-Inv inv mv
Move-Inv (give_back gave) inv mv = give_back-Inv inv gave mv
Move-Inv release inv mv = release-Inv inv mv

pub Reach-Inv : {n : ℕ} {s : System} → Reach n s → Inv n s.table s.at
Reach-Inv {n} start = init-Inv n
Reach-Inv (later r (move i {p} lt mv)) = Move-Inv mv (Reach-Inv r) (mover i lt p)
