-- ===== src/Publisher.antt =====
-- src/coclasses/publisher.h: `publisher<T>::queue`, through which a publisher reaches its subscribers.
--
-- A subscriber and an awaiter are numbers, and 0 is the null pointer. The outer `none` of an operation
-- is an access out of the bounds of a container. The queue of items has the newest item at its front.
-- `log` records the awaiters resumed. The lock of `_mx` covers each operation.
pub mod Push
pub mod Stream
pub mod Reading
pub mod Session
pub mod Slots
pub mod End
mod Tests
use coroutines_classes.Prelude.{
  ℕ, zero, suc, ◌+◌, ◌-◌, List, [], ◌∷◌, ◌++◌, Option, none, some, Bool, true, false, ◌==◌, ◌&&◌,
  ◌||◌, not, if◌then◌else◌, length, get_elem?, set, take, min, max, leb, ltb, add64, sub64, ◌^◌,
}

-- `subscribtion_type`
pub data Mode : Type 0 where
  all_values skip_if_behind skip_to_recent : Mode

-- `subreg_t`
pub record Reg : Type 0 where
  pub pos : ℕ
  pub sub : ℕ
  pub awt : ℕ
  pub used : Bool
  pub kicked : Bool

pub record Publisher {ℓ} (A : Type ℓ) : Type ℓ where
  pub max_len : ℕ
  pub min_len : ℕ
  pub regs : List Reg
  pub next_free : ℕ
  pub items : List A
  pub pos : ℕ
  pub closed : Bool
  pub log : List ℕ

abbrev pub fresh : ℕ → ℕ → Reg
fresh sub at = record { pos = at; sub = sub; awt = 0; used = true; kicked = false }

module _ {ℓ} {A : Type ℓ} where
  -- The default constructor: the queue has no limit of its own.
  abbrev pub new_publisher : Publisher A
  new_publisher = record {
    max_len = 2 ^ 64 - 1;
    min_len = 1;
    regs = [];
    next_free = 0;
    items = [];
    pos = 1;
    closed = false;
    log = [];
  }

  -- The first free slot is taken off the list of free slots, which runs through `pos`.
  reuse : ℕ → ℕ → Option Reg → Publisher A → Option (Publisher A × ℕ)
  reuse sub at none p = none
  reuse sub at (some l) p =
      some
        (record p { regs = set p.regs p.next_free (fresh sub at); next_free = l.pos }, p.next_free)

  unfoldable pub subscribe_at : ℕ → ℕ → Publisher A → Option (Publisher A × ℕ)
  unfolding reuse
  subscribe_at sub at p =
      if leb (length p.regs) p.next_free
      then some (
        record p { regs = p.regs ++ fresh sub at ∷ []; next_free = length p.regs + 1 },
        length p.regs,
      )
      else reuse sub at (get_elem? p.regs p.next_free) p

  unfoldable pub subscribe : ℕ → Publisher A → Option (Publisher A × ℕ)
  unfolding subscribe_at
  subscribe sub p = subscribe_at sub (sub64 p.pos 1) p

  -- A copy of the subscriber whose handle is `h`.
  unfoldable pub subscribe_copy : ℕ → ℕ → Publisher A → Option (Publisher A × ℕ)
  unfolding subscribe_at
  subscribe_copy h sub p = elim (get_elem? p.regs h) [
    | none ↦ none
    | some l ↦ subscribe_at sub l.pos p
  ]

  leave_slot : ℕ → Option Reg → Publisher A → Option (Publisher A)
  leave_slot h none p = none
  leave_slot h (some l) p = some (record p {
    regs = set p.regs h (record l { pos = p.next_free; used = false });
    next_free = h;
  })

  unfoldable pub leave : ℕ → Publisher A → Option (Publisher A)
  unfolding leave_slot
  leave h p = leave_slot h (get_elem? p.regs h) p

  unfoldable pub position : ℕ → Publisher A → Option ℕ
  position h p = elim (get_elem? p.regs h) [ none ↦ none | some l ↦ some l.pos ]

  -- The position that `advance` moves to.
  unfoldable pub advanced : Mode → ℕ → Publisher A → ℕ
  advanced all_values at p = add64 at 1
  advanced skip_if_behind at p = max (add64 at 1) (sub64 p.pos (length p.items))
  advanced skip_to_recent at p = max (add64 at 1) (sub64 p.pos 1)

  advance_slot : ℕ → Mode → Option Reg → Publisher A → Option (Publisher A × Bool)
  unfolding advanced
  advance_slot h t none p = none
  advance_slot h t (some l) p =
      if l.kicked
      then some (p, false)
      else if add64 l.pos 1 == p.pos && not p.closed
      then some (p, false)
      else some (record p { regs = set p.regs h (record l { pos = advanced t l.pos p }) }, true)

  unfoldable pub advance : ℕ → Mode → Publisher A → Option (Publisher A × Bool)
  unfolding advance_slot
  advance h t p = advance_slot h t (get_elem? p.regs h) p

  suspend_slot : ℕ → ℕ → Option Reg → Publisher A → Option (Publisher A × Bool)
  suspend_slot h awt none p = none
  suspend_slot h awt (some l) p =
      if l.kicked || p.closed
      then some (p, false)
      else if add64 l.pos 1 == p.pos
      then some
          (record p { regs = set p.regs h (record l { pos = add64 l.pos 1; awt = awt }) }, true)
      else some (record p { regs = set p.regs h (record l { pos = add64 l.pos 1 }) }, false)

  unfoldable pub advance_suspend : ℕ → ℕ → Publisher A → Option (Publisher A × Bool)
  unfolding suspend_slot
  advance_suspend h awt p = suspend_slot h awt (get_elem? p.regs h) p

  -- `_q[i]`: out of bounds there is no value to return.
  abbrev item_at : ℕ → Publisher A → Option (Option A)
  item_at i p = elim (get_elem? p.items i) [ none ↦ none | some v ↦ some (some v) ]

  read_mode : Mode → ℕ → Publisher A → Option (Option A)
  read_mode all_values relpos p =
      if leb (length p.items) relpos then some none else item_at relpos p
  read_mode skip_if_behind relpos p =
      if leb (length p.items) relpos then item_at (sub64 (length p.items) 1) p else item_at relpos p
  read_mode skip_to_recent relpos p = item_at 0 p

  read_slot : Mode → Option Reg → Publisher A → Option (Option A)
  unfolding read_mode
  read_slot t none p = none
  read_slot t (some l) p =
      if l.kicked || l.pos == p.pos then some none else read_mode t (sub64 (sub64 p.pos l.pos) 1) p

  unfoldable pub get_value : ℕ → Mode → Publisher A → Option (Option A)
  unfolding read_slot
  get_value h t p = read_slot t (get_elem? p.regs h) p

  -- `subscriber::next_ready`, with what `value` then returns: `is_ready` and `get_result`.
  unfoldable pub next_ready : ℕ → Mode → Publisher A → Option (Publisher A × Option A)
  unfolding advance get_value
  next_ready h t p = elim (advance h t p) [
    | none ↦ none
    | some (p', ready) ↦
        if ready
        then (elim (get_value h t p') [ none ↦ none | some v ↦ some (p', v) ])
        else some (p', none)
  ]
