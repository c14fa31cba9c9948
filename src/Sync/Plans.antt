-- ===== src/Sync/Plans.antt =====
-- es3/sync.cpp: what holds of every action that a synchronization plans.
use extremes.Base.{
  Bool, true, false, List, [], ◌∷◌, ◌++◌, Bytes, bytes_key, All, inl, inr, Option-cases,
}
use extremes.Glob.{Result, ok, fail}
use extremes.Sync.Included.{
  Settings, Action, Plan, Stop, bad_pattern, nothing, one, stop, ◌then_do◌, if_included,
  check_included,
}
use extremes.Sync.Uploads.{checked}

-- Every action of a plan is one of these.
unfoldable pub Only : (Action → Type 0) → Plan → Type 0
Only P p = All P p.actions

pub All-append :
    (P : Action → Type 0) (xs ys : List Action) → All P ys → All P xs → All P (xs ++ ys)
All-append P [] ys after before = after
All-append P (x ∷ xs) ys after before = (before.0, All-append P xs ys after before.1)

module _ (P : Action → Type 0) where
  pub Only-nothing : Only P nothing
  unfolding Only
  Only-nothing = tt

  pub Only-one : (a : Action) → P a → Only P (one a)
  unfolding Only
  Only-one a h = (h, tt)

  pub Only-stop : (why : Stop) → Only P (stop why)
  unfolding Only
  Only-stop why = tt

  pub Only-then_do : (p q : Plan) → Only P p → Only P q → Only P (p then_do q)
  unfolding Only
  Only-then_do p q hp hq = elim (Option-cases p.stopped) [
    | inl on ↦ rw on (All-append P p.actions q.actions hq hp)
    | inr (why, off) ↦ rw off hp
  ]

  pub Only-if_included : (r : Result Bool) (p : Plan) → Only P p → Only P (if_included r p)
  unfolding if_included
  Only-if_included (ok true) p h = h
  Only-if_included (ok false) p h = Only-nothing
  Only-if_included (fail why) p h = Only-stop (bad_pattern why)

  pub Only-checked :
      (set : Settings) (name : Bytes) (p : Plan) → Only P p → Only P (checked set name p)
  unfolding checked
  Only-checked set name p h = Only-if_included (check_included name set.included set.excluded) p h
