-- ===== src/Task/Contract.antt =====
-- The contract of a task of task.h: who owns it, its result, and whether somebody has read it.
use coroutines_classes.Prelude.{
  ℕ, ◌+◌, ◌-◌, ◌<◌, ◌≡◌, Bool, true, false, not, ◌==◌, ◌&&◌, if◌then◌else◌,
}
use coroutines_classes.Future.{
  Stored, not_value, value, exception, Got, returned, thrown, not_ready,
}
use coroutines_classes.Task.{Task, processed_bit}
use coroutines_classes.Task.Word.{pack}

pub record View {ℓ} (A : Type ℓ) : Type ℓ where
  pub users : ℕ
  pub running : Bool
  pub result : Stored A
  pub taken : Bool

-- A task that is gone may have reported its exception.
pub data Life {ℓ} (A : Type ℓ) : Type ℓ where
  alive : View A → Life A
  gone : Bool → Life A

pub data Op {ℓ} (A : Type ℓ) : Type ℓ where
  adds : Op A
  releases : Op A
  sets_value : A → Op A
  throws : ℕ → Op A
  reads : Op A
  finishes : Op A

module _ {ℓ} {A : Type ℓ} where
  abbrev pub is_value : Stored A → Bool
  is_value not_value = false
  is_value (value v) = true
  is_value (exception e) = false

  abbrev pub is_exception : Stored A → Bool
  is_exception not_value = false
  is_exception (value v) = false
  is_exception (exception e) = true

  abbrev pub is_set : Stored A → Bool
  is_set not_value = false
  is_set (value v) = true
  is_set (exception e) = true

  abbrev pub owners : View A → ℕ
  owners v = v.users + (if v.running then 1 else 0)

  -- A task that nobody owns is gone.
  abbrev pub settle : View A → Life A
  settle v = if owners v == 0 then gone (is_exception v.result && not v.taken) else alive v

  abbrev pub operate : Op A → View A → Life A
  operate adds v = alive (record v { users = v.users + 1 })
  operate releases v = settle (record v { users = v.users - 1 })
  operate (sets_value a) v = alive (record v { result = value a })
  operate (throws e) v = alive (record v { result = exception e })
  operate reads v = alive (record v { taken = true })
  operate finishes v = settle (record v { running = false })

  -- Only a handle is copied, released or read; the coroutine sets one result, and ends once.
  abbrev pub IsAllowed : Op A → View A → Type 0
  IsAllowed adds v = (0 < v.users) × (v.users + 2 < processed_bit)
  IsAllowed releases v = (0 < v.users)
  IsAllowed (sets_value a) v = (v.running ≡ true) × (is_set v.result ≡ false)
  IsAllowed (throws e) v = (v.running ≡ true) × (is_set v.result ≡ false)
  IsAllowed reads v = (0 < v.users)
  IsAllowed finishes v = (v.running ≡ true)

  pub record IsAlive (t : Task A) (v : View A) : Type ℓ where
    pub word : t.status ≡ pack (is_value v.result) (is_exception v.result) v.taken (owners v)
    pub room : v.users + 1 < processed_bit
    pub kept : t.stored ≡ v.result
    pub ended : t.handle ≡ not v.running
    pub present : t.destroyed ≡ false

  pub record IsGone (t : Task A) (r : Bool) : Type ℓ where
    pub absent : t.destroyed ≡ true
    pub report : t.reported ≡ r

  abbrev pub Stands : Task A → Life A → Type ℓ
  Stands t (alive v) = IsAlive t v
  Stands t (gone r) = IsGone t r

  abbrev pub outcome : Stored A → Got A
  outcome not_value = not_ready
  outcome (value v) = returned v
  outcome (exception e) = thrown e
