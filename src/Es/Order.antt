-- ===== src/Es/Order.antt =====
-- go-es/order.go: the orderer, which turns decode order and picture order counts into the frame
-- indexes of decode and presentation times. A method takes the orderer first and returns it; `none`
-- is a run-time panic. The frame itself is not looked at, so its type is a parameter. An int64 is
-- an unbounded integer.
pub mod Numbering
use gomediautils.Prelude.{
  ℕ, zero, suc, ◌+◌, ◌-◌, List, [], ◌∷◌, ◌++◌, Option, none, some, Bool, true, false, not, ltb, leb,
  ◌==◌, ◌&&◌, if◌then◌else◌, length, drop,
}
use gomediautils.Prelude.Int.{ℤ, pos, negsuc, sub_ℕ, ◌+ℤ◌, ◌-ℤ◌, ltb_ℤ, leb_ℤ}
use gomediautils.Prelude.Panics.{◌>>=◌}

abbrev pub lookahead : ℕ
lookahead = 16

pub record OrderKey : Type 0 where
  pub period : ℤ
  pub poc : ℤ

-- `a == b` of two integers.
abbrev same_int : ℤ → ℤ → Bool
same_int a b = leb_ℤ a b && leb_ℤ b a

unfoldable pub less : OrderKey → OrderKey → Bool
less a b = if not (same_int a.period b.period) then ltb_ℤ a.period b.period else ltb_ℤ a.poc b.poc

abbrev pub max_ℤ : ℤ → ℤ → ℤ
max_ℤ a b = if leb_ℤ a b then b else a

pub record OrderedFrame {ℓ} (F : Type ℓ) : Type ℓ where
  pub frame : F
  pub key : OrderKey
  pub dts_index : ℤ
  pub pts_index : ℤ

pub record Orderer {ℓ} (F : Type ℓ) : Type ℓ where
  pub window : List (OrderedFrame F)
  pub history : List OrderKey
  pub emitted : ℕ
  pub delay : ℤ
  pub measured : Bool

-- The frames shown later among those that have left.
unfoldable pub later_in : OrderKey → List OrderKey → ℕ
later_in key [] = 0
later_in key (k ∷ ks) = let n = later_in key ks in if less key k then suc n else n

-- The keys remembered once `key` has left.
unfoldable pub remember : List OrderKey → OrderKey → List OrderKey
remember history key =
    let h = history ++ (key ∷ []) in if ltb lookahead (length h) then drop 1 h else h

module _ {ℓ} {F : Type ℓ} where
  abbrev pub new_orderer : Orderer F
  new_orderer = record { window = []; history = []; emitted = 0; delay = pos 0; measured = false }

  -- Over the window, from the index `j` on: the frames before `i` that are shown after it, and those
  -- behind it that are shown before it.
  unfoldable pub later_before : OrderKey → ℕ → ℕ → List (OrderedFrame F) → ℕ
  later_before key i j [] = 0
  later_before key i j (f ∷ fs) =
      let n = later_before key i (suc j) fs in if ltb j i && less key f.key then suc n else n

  unfoldable pub earlier_behind : OrderKey → ℕ → ℕ → List (OrderedFrame F) → ℕ
  earlier_behind key i j [] = 0
  earlier_behind key i j (f ∷ fs) =
      let n = earlier_behind key i (suc j) fs in if ltb i j && less f.key key then suc n else n

  -- `rank`, of the frame of the window at `i` with its key: what is added, less what is taken off.
  unfoldable pub rank : Orderer F → ℕ → OrderKey → ℤ
  unfolding later_in later_before earlier_behind
  rank o i key =
      sub_ℕ (o.emitted + i + earlier_behind key i 0 o.window)
        (later_in key o.history + later_before key i 0 o.window)

  -- The loop of `measure`, over what is left of the window from the index `i` on.
  unfoldable pub measure_from : Orderer F → ℕ → List (OrderedFrame F) → ℤ → ℤ
  unfolding rank
  measure_from o i [] delay = delay
  measure_from o i (f ∷ fs) delay =
      measure_from o (suc i) fs (max_ℤ delay (pos i -ℤ rank o i f.key))

  unfoldable pub measure : Orderer F → Orderer F
  unfolding measure_from
  measure o = record o { measured = true; delay = measure_from o 0 o.window o.delay }

  -- The frame that leaves, with its two indexes.
  unfoldable pub placed : Orderer F → OrderedFrame F → OrderedFrame F
  placed o f = record f {
    dts_index = pos o.emitted;
    pts_index = max_ℤ (rank o 0 f.key +ℤ o.delay) (pos o.emitted);
  }

  -- `resolve`, on a window whose first frame is `f`.
  unfoldable pub resolve_first :
      Orderer F → OrderedFrame F → List (OrderedFrame F) → OrderedFrame F × Orderer F
  unfolding placed remember
  resolve_first o f fs =
      let o' = if o.measured then o else measure o in
      (
        placed o' f,
        record o' { window = fs; history = remember o'.history f.key; emitted = suc o'.emitted },
      )

  unfoldable pub resolve : Orderer F → Option (OrderedFrame F × Orderer F)
  unfolding resolve_first
  resolve o = elim o.window [ [] ↦ none | f ∷ fs ↦ some (resolve_first o f fs) ]

  -- A frame as `push` puts it into the window.
  unfoldable pub waiting : F → OrderKey → OrderedFrame F
  waiting f key = record { frame = f; key = key; dts_index = pos 0; pts_index = pos 0 }

  unfoldable pub push : Orderer F → F → OrderKey → Option (List (OrderedFrame F) × Orderer F)
  unfolding waiting
  push o f key =
      let o' = record o { window = o.window ++ (waiting f key ∷ []) } in
      if leb (length o'.window) lookahead
      then some ([], o')
      else (resolve o' >>= λ (r, o''). some (r ∷ [], o''))

  -- `flush`: a round for each frame of the window.
  unfoldable pub flush_loop : ℕ → Orderer F → Option (List (OrderedFrame F) × Orderer F)
  flush_loop zero o = some ([], o)
  flush_loop (suc n) o =
      resolve o >>= λ (r, o'). flush_loop n o' >>= λ (out, o''). some (r ∷ out, o'')

  unfoldable pub flush : Orderer F → Option (List (OrderedFrame F) × Orderer F)
  unfolding flush_loop
  flush o = flush_loop (length o.window) o

  -- A stream: every frame is pushed, and the rest is flushed.
  unfoldable pub order_stream : List (F × OrderKey) → Orderer F → Option (List (OrderedFrame F))
  order_stream [] o = flush o >>= λ (out, _). some out
  order_stream ((f, key) ∷ rest) o =
      push o f key >>= λ (out, o'). order_stream rest o' >>= λ out'. some (out ++ out')
