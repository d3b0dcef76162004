-- ===== src/Rtp/H264/AccessUnit.antt =====
-- `H264Packer.Pack` and `H264UnPacker.UnPack`: an access unit is received as its units.
use gomediautils.Prelude.{
  ℕ, ◌+◌, ◌≤◌, ◌<◌, ◌≡◌, refl, sym, ap, ◌∙◌, inl, inr, arith, List, [], ◌∷◌, ◌++◌, append_assoc,
  append-nil, Bool, true, false, if◌then◌else◌, ltb, leb, ◌==◌, lt→ltb, lt→leb, le→leb, lt_or_ge,
  length, All, take, bit_and, none, ok,
}
use mathlib.Core.Path.{subst, subst₂}
use gomediautils.Prelude.Bytes.{IsByte, IsU32}
use gomediautils.Codec.Nalu.{split_frame}
use gomediautils.Codec.Nalu.Search.{IsUnit}
use gomediautils.Codec.Nalu.Split.{annex_b, split_frame-annex_b}
use gomediautils.Rtp.Packet.{set_flags}
use gomediautils.Rtp.Packet.RoundTrip.{seen}
use gomediautils.Rtp.Packet.Whole.{received}
use gomediautils.Rtp.H264.Packer.{
  H264Packer, Gathered, rtp_packet, pack_single_nalu, pack_fu_a, pack_payload, pack_payloads, pack,
  collect_nalu, collect_nalus, not_empty, flush_param_sets,
}
use gomediautils.Rtp.H264.UnPacker.{H264UnPacker, Frame, give_frame, unpack_payload}
use gomediautils.Rtp.H264.Feed.{Ready, send-none, feed-send, send-Fits}
use gomediautils.Rtp.H264.Rounds.{Sent, frame_of, unpack-pack_fu_a}

-- A unit whose first byte has one of the types that are sent as they are.
abbrev pub IsNalu : List ℕ → Type 0
IsNalu [] = ⊥
IsNalu (b ∷ _) = IsByte b × ((0 < bit_and b 0x1F) × (bit_and b 0x1F < 24))

abbrev pub frames_of : List (List ℕ) → ℕ → List Frame
frames_of [] time = []
frames_of (nalu ∷ nalus) time = frame_of nalu time ∷ frames_of nalus time

abbrev singles : List (List ℕ) → List (List (List ℕ))
singles [] = []
singles (nalu ∷ nalus) = (nalu ∷ []) ∷ singles nalus

module _ (on_packet : List (List ℕ) → List ℕ → Bool)
    (accepts : (sent : List (List ℕ)) (pkt : List ℕ) → on_packet sent pkt ≡ true) where
  single_unit :
      (p : H264Packer) (u : H264UnPacker) (b : ℕ) (nalu : List ℕ) (time : ℕ) (last : Bool)
      → (frames : List Frame) → IsNalu (b ∷ nalu)
      → IsU32 time
      → Ready p u frames
      → Sent
          (pack_single_nalu on_packet p (b ∷ nalu) time last)
          u
          (frames ++ (frame_of (b ∷ nalu) time ∷ []))
  unfolding pack_single_nalu give_frame
  single_unit p u b nalu time last frames (h, (lo, hi)) t a =
      let pkg = rtp_packet p time last (b ∷ nalu) in
      let v = a.receiver in
      let l : ltb 0 (bit_and b 0x1F) ≡ true = lt→ltb _ _ lo in
      let m : ltb (bit_and b 0x1F) 24 ≡ true = lt→ltb _ _ hi in
      let k : unpack_payload v (received pkg) ≡ (
        ok tt,
        give_frame (record v { frame_buffer = v.frame_buffer ++ (b ∷ nalu) }) time false,
      ) =
        unfold unpack_payload received set_flags seen rtp_packet in rw (l, m) in
      record {
        no_error = send-none on_packet accepts p pkg;
        ready = record {
          fits = send-Fits on_packet accepts p pkg a.fits;
          receiver = _;
          fed = feed-send on_packet accepts p time last (b ∷ nalu) u v _ a.fits t a.fed k;
          clean = ap (λ (x : List ℕ). take 4 (x ++ (b ∷ nalu))) a.clean;
          given = λ i.
              a.given i
              ++ (record { data_bytes = a.clean i ++ (b ∷ nalu); timestamp = time; lost = false }
                  ∷ []);
        };
      }

  fits_one :
      (p : H264Packer) (nalu : List ℕ) (time : ℕ) (last : Bool)
      → length nalu + 12 ≤ p.mtu
      → pack_payload on_packet p (nalu ∷ []) time last ≡ pack_single_nalu on_packet p nalu time last
  unfolding pack_payload
  fits_one p nalu time last h = let l : leb (length nalu + 12) p.mtu ≡ true = le→leb _ _ h in rw l

  fits_not :
      (p : H264Packer) (nalu : List ℕ) (time : ℕ) (last : Bool)
      → p.mtu < length nalu + 12
      → pack_payload on_packet p (nalu ∷ []) time last ≡ pack_fu_a on_packet p nalu time last
  unfolding pack_payload
  fits_not p nalu time last h = let l : leb (length nalu + 12) p.mtu ≡ false = lt→leb _ _ h in rw l

  one_unit :
      (p : H264Packer) (u : H264UnPacker) (nalu : List ℕ) (time : ℕ) (last : Bool)
      → (frames : List Frame) → IsNalu nalu
      → IsU32 time
      → Ready p u frames
      → Sent
          (pack_payload on_packet p (nalu ∷ []) time last)
          u
          (frames ++ (frame_of nalu time ∷ []))
  one_unit p u [] time last frames n t a = absurd n
  one_unit p u (b ∷ []) time last frames n t a =
      subst (λ r. Sent r u (frames ++ (frame_of (b ∷ []) time ∷ [])))
        (sym (fits_one p (b ∷ []) time last (omega (arith, a.fits.roomy))))
        (single_unit p u b [] time last frames n t a)
  one_unit p u (b ∷ c ∷ nalu) time last frames n t a =
      let whole : List ℕ = b ∷ c ∷ nalu in
      elim (lt_or_ge p.mtu (length whole + 12)) [
        | inr room ↦
            subst (λ r. Sent r u (frames ++ (frame_of whole time ∷ [])))
              (sym (fits_one p whole time last room))
              (single_unit p u b (c ∷ nalu) time last frames n t a)
        | inl long ↦
            subst (λ r. Sent r u (frames ++ (frame_of whole time ∷ [])))
              (sym (fits_not p whole time last long))
              (unpack-pack_fu_a on_packet accepts p u b c nalu time last frames n.0 t a)
      ]

  sent_one :
      (p : H264Packer) (x : List (List ℕ)) (xs : List (List (List ℕ))) (time : ℕ)
      → (pack_payload on_packet p x time (length xs == 0)).0 ≡ none
      → pack_payloads on_packet p (x ∷ xs) time
        ≡ pack_payloads on_packet (pack_payload on_packet p x time (length xs == 0)).1 xs time
  unfolding pack_payloads
  sent_one p x xs time e = rw (pack_payloads, e)

  units-Sent :
      (nalus : List (List ℕ)) (p : H264Packer) (u : H264UnPacker) (time : ℕ) (frames : List Frame)
      → All IsNalu nalus
      → IsU32 time
      → Ready p u frames
      → Sent (pack_payloads on_packet p (singles nalus) time) u (frames ++ frames_of nalus time)
  unfolding pack_payloads
  units-Sent [] p u time frames n t a = record {
    no_error = refl;
    ready = subst (λ (x : List Frame). Ready p u x) (sym (append-nil frames)) a;
  }
  units-Sent (nalu ∷ nalus) p u time frames (n, ns) t a =
      let s = one_unit p u nalu time (length (singles nalus) == 0) frames n t a in
      let ih = units-Sent nalus _ u time (frames ++ (frame_of nalu time ∷ [])) ns t s.ready in
      subst₂ (λ r x. Sent r u x) (sym (sent_one p (nalu ∷ []) (singles nalus) time s.no_error))
        (append_assoc frames (frame_of nalu time ∷ []) (frames_of nalus time)) ih

  collect_one :
      (p : H264Packer) (c : Gathered) (nalu : List ℕ)
      → p.stap_a ≡ false
      → collect_nalu p c nalu ≡ record c { payloads = c.payloads ++ ((nalu ∷ []) ∷ []) }
  unfolding collect_nalu
  collect_one p c nalu e = rw e

  collect_units :
      (nalus : List (List ℕ)) (p : H264Packer) (c : Gathered)
      → p.stap_a ≡ false
      → collect_nalus p c nalus ≡ record c { payloads = c.payloads ++ singles nalus }
  unfolding collect_nalus
  collect_units [] p c e =
      ap (λ (x : List (List (List ℕ))). record c { payloads = x }) (sym (append-nil c.payloads))
  collect_units (nalu ∷ nalus) p c e =
      let f : collect_nalu p c nalu ≡ record c { payloads = c.payloads ++ ((nalu ∷ []) ∷ []) } =
        collect_one p c nalu e in
      ap (λ (x : Gathered). collect_nalus p x nalus) f
      ∙ collect_units nalus p (record c { payloads = c.payloads ++ ((nalu ∷ []) ∷ []) }) e
      ∙ ap (λ (x : List (List (List ℕ))). record c { payloads = x })
          (append_assoc c.payloads ((nalu ∷ []) ∷ []) (singles nalus))

  not_empty_units : (us : List (List ℕ)) → All IsNalu us → not_empty us ≡ us
  unfolding not_empty
  not_empty_units [] h = refl
  not_empty_units ([] ∷ us) (h, hs) = absurd h
  not_empty_units ((b ∷ bs) ∷ us) (h, hs) =
      ap (λ (x : List (List ℕ)). (b ∷ bs) ∷ x) (not_empty_units us hs)

  pack_units :
      (p : H264Packer) (us : List (List ℕ)) (time : ℕ)
      → p.stap_a ≡ false
      → collect_nalus p
          (record { sps = p.sps; pps = p.pps; payloads = [] })
          (not_empty (split_frame (λ _. true) (annex_b us)))
        ≡ record { sps = p.sps; pps = p.pps; payloads = singles us }
      → pack on_packet p (annex_b us) time ≡ pack_payloads on_packet p (singles us) time
  unfolding pack
  pack_units p us time e q =
      let c =
        collect_nalus p (record { sps = p.sps; pps = p.pps; payloads = [] })
          (not_empty (split_frame (λ _. true) (annex_b us))) in
      let k : (if p.stap_a then flush_param_sets p.mtu c else c)
          ≡ record { sps = p.sps; pps = p.pps; payloads = singles us } =
        ap (λ (b : Bool). if b then flush_param_sets p.mtu c else c) e ∙ q in
      ap
        (λ (x : Gathered).
          pack_payloads on_packet (record p { sps = x.sps; pps = x.pps }) x.payloads time)
        k

  -- An access unit that is a stream of units with start codes of four bytes, each of which can stand
  -- alone in a packet by its type and contains no start code nor ends in a zero, packed without
  -- aggregation by a packer whose fields fit, to a callback that gives no error, is sent without an
  -- error: an unpacker that is given all packets of the packer, and whose buffer is clean before, is
  -- given these units in their order, whether one packet holds a unit or it is sent in fragments, each
  -- behind a start code, at the time of the access unit and not lost, and is clean again.
  pub un_pack-pack :
      (p : H264Packer) (u : H264UnPacker) (us : List (List ℕ)) (time : ℕ) (frames : List Frame)
      → All IsUnit us
      → All IsNalu us
      → IsU32 time
      → p.stap_a ≡ false
      → Ready p u frames
      → Sent (pack on_packet p (annex_b us) time) u (frames ++ frames_of us time)
  un_pack-pack p u us time frames h n t e a =
      let c : Gathered = record { sps = p.sps; pps = p.pps; payloads = [] } in
      let w : not_empty (split_frame (λ _. true) (annex_b us)) ≡ us =
        ap not_empty (split_frame-annex_b us h) ∙ not_empty_units us n in
      let q : collect_nalus p c (not_empty (split_frame (λ _. true) (annex_b us)))
          ≡ record { sps = p.sps; pps = p.pps; payloads = singles us } =
        ap (λ (x : List (List ℕ)). collect_nalus p c x) w ∙ collect_units us p c e in
      subst (λ r. Sent r u (frames ++ frames_of us time)) (sym (pack_units p us time e q))
        (units-Sent us p u time frames n t a)
