-- ===== src/Common/Steps.antt =====
-- What a method or a handler does: the new state, the calls that it makes, in their order, and
-- whether an exception leaves it. Methods that run one after another are joined by `>>`.
use mathlib.Core.Bool.{Bool, true, false}
use mathlib.Core.List.{List, [], ◌∷◌, ◌++◌}
use libn2t.Common.Tests.{if◌then◌else◌}

pub record Step (S E : Type 0) : Type 0 where
  pub state : S
  pub effects : List E
  pub thrown : Bool

abbrev pub Action : Type 0 → Type 0 → Type 0
Action S E = S → Step S E

module _ {S E : Type 0} where
  abbrev pub pass : Action S E
  pass s = record { state = s; effects = []; thrown = false }

  abbrev pub emit : E → Action S E
  emit e s = record { state = s; effects = e ∷ []; thrown = false }

  abbrev pub throw : Action S E
  throw s = record { state = s; effects = []; thrown = true }

  -- What comes after an exception is not run.
  abbrev pub continue : Step S E → Action S E → Step S E
  continue t next =
      if t.thrown
      then t
      else (let u = next t.state in
          record { state = u.state; effects = t.effects ++ u.effects; thrown = u.thrown })

  infixl 5 ◌>>◌
  abbrev pub ◌>>◌ : Action S E → Action S E → Action S E
  ◌>>◌ first next s = continue (first s) next
