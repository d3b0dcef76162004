-- ===== src/Es/Order/Numbering.antt =====
-- What the orderer gives out.
use gomediautils.Prelude.{
  ℕ, suc, ◌≡◌, refl, sym, ap, ◌∙◌, arith, List, [], ◌∷◌, ◌++◌, append-nil, append_assoc, Option,
  none, some, Bool, true, false, leb, Bool-cases, inl, inr, if◌then◌else◌, length,
}
use gomediautils.Prelude.Int.{ℤ, pos, negsuc, ◌≤ℤ◌, ◌+ℤ◌}
use gomediautils.Prelude.Panics.{◌>>=◌}
use gomediautils.Es.Order.{
  OrderKey, OrderedFrame, Orderer, lookahead, max_ℤ, rank, measure, placed, resolve_first, resolve,
  waiting, push, flush_loop, flush, order_stream,
}

max-le : (a : ℤ) (n : ℕ) → pos n ≤ℤ max_ℤ a (pos n)
max-le (pos m) n = ground arith
max-le (negsuc m) n = ground arith

module _ {ℓ} {F : Type ℓ} where
  -- The frames leave in the order `ins`, the decode indexes count from `n`, and no presentation
  -- index is below the decode index.
  pub data Numbered : ℕ → List F → List (OrderedFrame F) → Type ℓ where
    done : (n : ℕ) → Numbered n [] []
    next :
        (n : ℕ) (f : F) (fs : List F) (r : OrderedFrame F) (rs : List (OrderedFrame F))
        → r.frame ≡ f
        → r.dts_index ≡ pos n
        → r.dts_index ≤ℤ r.pts_index
        → Numbered (suc n) fs rs
        → Numbered n (f ∷ fs) (r ∷ rs)

  unfoldable pub frames : List (OrderedFrame F) → List F
  frames [] = []
  frames (f ∷ fs) = f.frame ∷ frames fs

  -- The state behind one `resolve`.
  record Resolved (o : Orderer F) (f : OrderedFrame F) (fs : List (OrderedFrame F)) : Type ℓ where
    out : OrderedFrame F
    left : Orderer F
    returns : resolve o ≡ some (out, left)
    same_frame : out.frame ≡ f.frame
    index : out.dts_index ≡ pos o.emitted
    shown : out.dts_index ≤ℤ out.pts_index
    window_left : left.window ≡ fs
    counted : left.emitted ≡ suc o.emitted

  emitted_kept : (o : Orderer F) (b : Bool) → (if b then o else measure o).emitted ≡ o.emitted
  unfolding measure
  emitted_kept o true = refl
  emitted_kept o false = refl

  placed-shown : (o : Orderer F) (f : OrderedFrame F) → pos o.emitted ≤ℤ (placed o f).pts_index
  unfolding placed
  placed-shown o f = max-le (rank o 0 f.key +ℤ o.delay) o.emitted

  resolve-Resolved :
      (o : Orderer F) (f : OrderedFrame F) (fs : List (OrderedFrame F))
      → o.window ≡ f ∷ fs
      → Resolved o f fs
  unfolding resolve resolve_first placed
  resolve-Resolved o f fs e =
      let k = emitted_kept o o.measured in
      record {
        out = (resolve_first o f fs).0;
        left = (resolve_first o f fs).1;
        returns =
            ap
              (λ (w : List (OrderedFrame F)). elim w as (λ _. Option (OrderedFrame F × Orderer F)) [
                | [] ↦ none
                | g ∷ gs ↦ some (resolve_first o g gs)
              ])
              e;
        same_frame = refl;
        index = ap pos k;
        shown = placed-shown (if o.measured then o else measure o) f;
        window_left = refl;
        counted = ap suc k;
      }

  record Flushed (o : Orderer F) (ins : List F) (r : Option (List (OrderedFrame F) × Orderer F))
      : Type ℓ where
    out : List (OrderedFrame F)
    left : Orderer F
    returns : r ≡ some (out, left)
    numbered : Numbered o.emitted ins out

  flush_loop-Flushed :
      (ws : List (OrderedFrame F)) (o : Orderer F)
      → o.window ≡ ws
      → Flushed o (frames ws) (flush_loop (length ws) o)
  unfolding flush_loop frames
  flush_loop-Flushed [] o e = record {
    out = [];
    left = o;
    returns = refl;
    numbered = done o.emitted;
  }
  flush_loop-Flushed (w ∷ ws) o e =
      let r = resolve-Resolved o w ws e in
      let ih = flush_loop-Flushed ws r.left r.window_left in
      record {
        out = r.out ∷ ih.out;
        left = ih.left;
        returns = rw (r.returns, ◌>>=◌, ih.returns);
        numbered =
            next o.emitted w.frame (frames ws) r.out ih.out r.same_frame r.index r.shown
              (rw (sym r.counted) ih.numbered);
      }

  unfoldable pub inputs : List (F × OrderKey) → List F
  inputs [] = []
  inputs ((f, key) ∷ rest) = f ∷ inputs rest

  pub record Ordered (n : ℕ) (ins : List F) (r : Option (List (OrderedFrame F))) : Type ℓ where
    pub out : List (OrderedFrame F)
    pub returns : r ≡ some out
    pub numbered : Numbered n ins out

  frames-append : (ws vs : List (OrderedFrame F)) → frames (ws ++ vs) ≡ frames ws ++ frames vs
  unfolding frames
  frames-append [] vs = refl
  frames-append (w ∷ ws) vs = ap (λ (t : List F). w.frame ∷ t) (frames-append ws vs)

  record Splits (ws : List (OrderedFrame F)) : Type ℓ where
    first : OrderedFrame F
    rest : List (OrderedFrame F)
    whole : ws ≡ first ∷ rest

  snoc-Splits : (ws : List (OrderedFrame F)) (w : OrderedFrame F) → Splits (ws ++ (w ∷ []))
  snoc-Splits [] w = record { first = w; rest = []; whole = refl }
  snoc-Splits (v ∷ ws) w = record { first = v; rest = ws ++ (w ∷ []); whole = refl }

  joined :
      (ws : List (OrderedFrame F)) (f : F) (key : OrderKey) (rest : List (F × OrderKey))
      → frames (ws ++ (waiting f key ∷ [])) ++ inputs rest ≡ frames ws ++ inputs ((f, key) ∷ rest)
  unfolding frames inputs waiting
  joined ws f key rest =
      ap (λ (t : List F). t ++ inputs rest) (frames-append ws (waiting f key ∷ []))
      ∙ append_assoc (frames ws) (f ∷ []) (inputs rest)

  -- From any state, pushing every frame and flushing gives out the frames of the window and then the
  -- frames pushed, in that order, numbered from the count of frames that have left
  -- before, none with a presentation index below its decode index.
  pub order_stream-Ordered :
      (ins : List (F × OrderKey)) (o : Orderer F)
      → Ordered o.emitted (frames o.window ++ inputs ins) (order_stream ins o)
  unfolding order_stream flush push inputs frames
  order_stream-Ordered [] o =
      let r = flush_loop-Flushed o.window o refl in
      record {
        out = r.out;
        returns = rw (r.returns, ◌>>=◌);
        numbered = rw (append-nil (frames o.window)) r.numbered;
      }
  order_stream-Ordered ((f, key) ∷ rest) o =
      let w = waiting f key in
      let o1 = record o { window = o.window ++ (w ∷ []) } in
      let ih = order_stream-Ordered rest o1 in
      let fr = joined o.window f key rest in
      elim (Bool-cases (leb (length (o.window ++ (w ∷ []))) lookahead)) [
        | inl e ↦ record {
          out = ih.out;
          returns = rw (e, ◌>>=◌, ih.returns);
          numbered = rw (sym fr) ih.numbered;
        }
        | inr e ↦
            let sp = snoc-Splits o.window w in
            let r = resolve-Resolved o1 sp.first sp.rest sp.whole in
            let ih' = order_stream-Ordered rest r.left in
            let p : frames o.window ++ inputs ((f, key) ∷ rest)
                ≡ sp.first.frame ∷ (frames r.left.window ++ inputs rest) =
              sym fr
              ∙ ap (λ (ws : List (OrderedFrame F)). frames ws ++ inputs rest) sp.whole
              ∙ ap (λ (ws : List (OrderedFrame F)). sp.first.frame ∷ (frames ws ++ inputs rest))
                  (sym r.window_left) in
            record {
              out = r.out ∷ ih'.out;
              returns = rw (e, r.returns, ◌>>=◌, ih'.returns);
              numbered = rw p (
                  next o.emitted sp.first.frame (frames r.left.window ++ inputs rest) r.out ih'.out
                    r.same_frame r.index r.shown (rw (sym r.counted) ih'.numbered));
            }
      ]
