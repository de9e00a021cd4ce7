-- ===== src/Irp/Protocol.antt =====
-- Sequences of uses of the crate's IRPs: what Rust's ownership lets a driver do with the values of
-- type `Irp` that it holds. Each use moves its IRP out of the driver's hands.
use wdk_safe.Base.{ℕ, ◌+◌, ◌≤◌, ◌≡◌, ◌≢◌, ap, ◌∙◌, List, [], ◌∷◌, ◌++◌, ◌==◌, if◌then◌else◌, arith}
use wdk_safe.Status.{NtStatus}
use wdk_safe.Memory.{Ptr, Memory, null}
use wdk_safe.Machine.{World, ok, completions}
use wdk_safe.Irp
use wdk_safe.Irp.{IrpCompleter, Irp, owned, from_raw, complete, drop}
use wdk_safe.Irp.Completers.{IsCompleter}
use wdk_safe.Irp.Ownership.{complete-CompletedOnce}

pub record State : Type 0 where
  pub world : World
  -- the values of type `Irp` that are held
  pub live : List Irp
  -- the pointers that `into_raw` gave away, for another driver
  pub given : List Ptr

-- How many of the values hold the pointer.
abbrev pub held : Ptr → List Irp → ℕ
held p [] = 0
held p (i ∷ is) = (if Irp.as_raw_ptr i == p then 1 else 0) + held p is

-- How often the pointer was given away.
abbrev pub handed : Ptr → List Ptr → ℕ
handed p [] = 0
handed p (q ∷ qs) = (if q == p then 1 else 0) + handed p qs

-- The safety contract of `Irp::from_raw`: not null, not held by another `Irp`, and
-- neither completed nor given away yet.
pub record MayWrap (p : Ptr) (s : State) : Type 0 where
  pub not_null : p ≢ null
  pub not_held : held p s.live ≡ 0
  pub not_given : handed p s.given ≡ 0
  pub not_completed : completions p s.world.effects ≡ 0

-- One use, from the state `s` to the state `t`.
pub data Step (c : IrpCompleter) (Ready : Ptr → Memory → Type 0) (s t : State) : Type 0 where
  wrap :
      (p : Ptr)
      → MayWrap p s
      → from_raw p s.world ≡ ok (owned p) t.world
      → t.live ≡ owned p ∷ s.live
      → t.given ≡ s.given
      → Step c Ready s t
  finish :
      (before : List Irp) (irp : Irp) (after : List Irp) (status : NtStatus)
      → s.live ≡ before ++ irp ∷ after
      → Ready (Irp.as_raw_ptr irp) s.world.mem
      → complete c irp status s.world ≡ ok status t.world
      → t.live ≡ before ++ after
      → t.given ≡ s.given
      → Step c Ready s t
  hand_over :
      (before : List Irp) (irp : Irp) (after : List Irp)
      → s.live ≡ before ++ irp ∷ after
      → t.world ≡ s.world
      → t.live ≡ before ++ after
      → t.given ≡ Irp.into_raw irp ∷ s.given
      → Step c Ready s t
  lose :
      (before : List Irp) (irp : Irp) (after : List Irp)
      → s.live ≡ before ++ irp ∷ after
      → drop irp s.world ≡ ok tt t.world
      → t.live ≡ before ++ after
      → t.given ≡ s.given
      → Step c Ready s t

pub data Reach (c : IrpCompleter) (Ready : Ptr → Memory → Type 0) (s : State) : State → Type 0 where
  here : Reach c Ready s s
  next : {t u : State} → Reach c Ready s t → Step c Ready t u → Reach c Ready s u

-- Every IRP is held by one value, or was completed, or was given away, or none of these, and once.
abbrev pub IsLinear : State → Type 0
IsLinear s = (p : Ptr) → held p s.live + handed p s.given + completions p s.world.effects ≤ 1

held-append : (p : Ptr) (xs ys : List Irp) → held p (xs ++ ys) ≡ held p xs + held p ys
held-append p [] ys = omega arith
held-append p (x ∷ xs) ys = omega (arith, held-append p xs ys)

-- Taking one value out.
held_out :
    (p : Ptr) (before : List Irp) (irp : Irp) (after : List Irp)
    → held p (before ++ irp ∷ after)
      ≡ (if Irp.as_raw_ptr irp == p then 1 else 0) + held p (before ++ after)
held_out p before irp after =
    omega (arith, held-append p before (irp ∷ after), held-append p before after)

-- Neither wrapping a pointer nor, in a release build, losing an IRP changes the machine.
from_raw-world : (p : Ptr) (w w' : World) → from_raw p w ≡ ok (owned p) w' → w ≡ w'
unfolding from_raw
from_raw-world p w w' e = ground arith

drop-world : (irp : Irp) (w w' : World) → drop irp w ≡ ok tt w' → w ≡ w'
unfolding drop
drop-world irp w w' e = ground arith

-- What the log says of `q` is the same in equal worlds.
same_log : (q : Ptr) (w w' : World) → w ≡ w' → completions q w.effects ≡ completions q w'.effects
same_log q w w' e = ap (λ (v : World). completions q v.effects) e

module _ {c : IrpCompleter} {Ready : Ptr → Memory → Type 0} (contract : IsCompleter c Ready) where
  finish_log :
      (irp : Irp) (status : NtStatus) (w w' : World)
      → Ready (Irp.as_raw_ptr irp) w.mem
      → complete c irp status w ≡ ok status w'
      → (q : Ptr)
      → completions q w'.effects
        ≡ (if Irp.as_raw_ptr irp == q then 1 else 0) + completions q w.effects
  finish_log irp status w w' ready done q =
      let (v, e, once) = complete-CompletedOnce contract irp status w ready in
      same_log q w' v (cc (done, e)) ∙ once.completed_once q

  Step-IsLinear : (s t : State) → Step c Ready s t → IsLinear s → IsLinear t
  Step-IsLinear s t (wrap p may e el eg) h q =
      let log = same_log q s.world t.world (from_raw-world p s.world t.world e) in
      let new = ap (held q) el in
      let same = ap (handed q) eg in
      ground (arith, h q, log, new, same, may.not_held, may.not_given, may.not_completed)
  Step-IsLinear s t (finish before irp after status e ready done el eg) h q = omega (
    arith,
    h q,
    finish_log irp status s.world t.world ready done q,
    ap (held q) e,
    ap (held q) el,
    ap (handed q) eg,
    held_out q before irp after,
  )
  Step-IsLinear s t (hand_over before irp after e ew el eg) h q = omega (
    arith,
    h q,
    same_log q t.world s.world ew,
    ap (held q) e,
    ap (held q) el,
    ap (handed q) eg,
    held_out q before irp after,
  )
  Step-IsLinear s t (lose before irp after e ew el eg) h q = omega (
    arith,
    h q,
    same_log q s.world t.world (drop-world irp s.world t.world ew),
    ap (held q) e,
    ap (held q) el,
    ap (handed q) eg,
    held_out q before irp after,
  )

  -- From a state in which every IRP is held, completed or given away at most once in all, every
  -- sequence of uses, however long, leads to such a state: no IRP is completed or given away twice,
  -- or given away and completed, or either while a value still holds it. The uses are completing a
  -- value that is held, giving its pointer away by `into_raw`, losing it, and wrapping a pointer under
  -- the safety contract of `from_raw`: it is not null, no value holds it, and it was neither completed
  -- nor given away. Condition: the completer keeps its contract.
  pub Reach-IsLinear : {s t : State} → IsLinear s → Reach c Ready s t → IsLinear t
  Reach-IsLinear h here = h
  Reach-IsLinear h (next r st) = Step-IsLinear _ _ st (Reach-IsLinear h r)
