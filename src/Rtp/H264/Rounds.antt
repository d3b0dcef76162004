-- ===== src/Rtp/H264/Rounds.antt =====
-- `packFuA` and `unpackFuA`: the fragments of a unit are put together again.
use gomediautils.Prelude.{
  ℕ, zero, suc, ◌+◌, ◌-◌, ◌%◌, ◌^◌, ◌≤◌, ◌<◌, ◌≡◌, refl, sym, ap, ◌∙◌, inl, inr, arith, List, [],
  ◌∷◌, ◌++◌, append_assoc, Bool, true, false, if◌then◌else◌, ltb, leb, lt→leb, le→leb, lt_or_ge,
  length, take, drop, length-drop, take-append-drop, bit_and, bit_or, Option, none, ok,
}
use mathlib.Core.Path.{subst, subst₂}
use gomediautils.Prelude.Bytes.{IsByte, IsU32}
use gomediautils.Rtp.H264.Packer.{H264Packer, PackError, rtp_packet, send, fu_a_loop, pack_fu_a}
use gomediautils.Rtp.H264.UnPacker.{H264UnPacker, Frame, start_code, give_frame}
use gomediautils.Rtp.H264.Feed.{feed, Fits, Ready, send-none, feed-send, send-Fits}
use gomediautils.Rtp.H264.Headers.{
  indicator, first_header, later_header, first_Header, only_Header, later_Header, last_Header,
}
use gomediautils.Rtp.H264.Fragments.{fragment, first_fragment}

-- Sent without an error, and received as these frames.
pub record Sent (r : Option PackError × H264Packer) (u : H264UnPacker) (frames : List Frame)
    : Type 0 where
  pub no_error : r.0 ≡ none
  pub ready : Ready r.1 u frames

abbrev pub frame_of : List ℕ → ℕ → Frame
frame_of nalu timestamp = record {
  data_bytes = start_code ++ nalu;
  timestamp = timestamp;
  lost = false;
}

joined :
    (part : List ℕ) (n : ℕ) (nalu : List ℕ) → (part ++ take n nalu) ++ drop n nalu ≡ part ++ nalu
joined part n nalu =
    append_assoc part (take n nalu) (drop n nalu)
    ∙ ap (λ (x : List ℕ). part ++ x) (take-append-drop n nalu)

-- Amid the fragments of a unit: what the packer has sent gave these frames, and the first bytes of the
-- unit stand in the buffer.
record Amid (p : H264Packer) (u : H264UnPacker) (part : List ℕ) (time : ℕ) (frames : List Frame)
    : Type 0 where
  fits : Fits p
  receiver : H264UnPacker
  fed : feed p.sent u ≡ ok receiver
  buffer : receiver.frame_buffer ≡ start_code ++ part
  next : (receiver.last_sequence + 1) % 2 ^ 16 ≡ p.sequence
  timed : receiver.timestamp ≡ time
  kept : receiver.lost ≡ false
  given : receiver.frames ≡ frames

module _ (on_packet : List (List ℕ) → List ℕ → Bool)
    (accepts : (sent : List (List ℕ)) (pkt : List ℕ) → on_packet sent pkt ≡ true) where
  loop_on :
      (fuel : ℕ) (p : H264Packer) (ind header header' : ℕ) (nalu : List ℕ) (timestamp : ℕ)
      → (last : Bool) → p.mtu < length nalu + 14
      → (if ltb 0 (bit_and header 0x80) then bit_and header 0x7F else header) ≡ header'
      → fu_a_loop on_packet (suc fuel) p ind header nalu timestamp last
        ≡ fu_a_loop on_packet fuel
            (send on_packet p
              (rtp_packet p timestamp false (ind ∷ header ∷ take (p.mtu - 2 - 12) nalu))).1
            ind
            header'
            (drop (p.mtu - 2 - 12) nalu)
            timestamp
            last
  unfolding fu_a_loop
  loop_on fuel p ind header header' nalu timestamp last h q =
      let l : leb (length nalu + 12 + 2) p.mtu ≡ false = lt→leb _ _ (omega arith) in
      let e =
        send-none on_packet accepts p
          (rtp_packet p timestamp false (ind ∷ header ∷ take (p.mtu - 2 - 12) nalu)) in
      rw (fu_a_loop, l, e, q)

  loop_end :
      (fuel : ℕ) (p : H264Packer) (ind header : ℕ) (nalu : List ℕ) (timestamp : ℕ) (last : Bool)
      → length nalu + 14 ≤ p.mtu
      → fu_a_loop on_packet (suc fuel) p ind header nalu timestamp last
        ≡ send on_packet p (rtp_packet p timestamp last (ind ∷ bit_or header 0x40 ∷ nalu))
  unfolding fu_a_loop
  loop_end fuel p ind header nalu timestamp last h =
      let l : leb (length nalu + 12 + 2) p.mtu ≡ true = le→leb _ _ (omega arith) in
      rw (fu_a_loop, l)

  -- The last fragment.
  end_fragment :
      (p : H264Packer) (u : H264UnPacker) (b : ℕ) (part nalu : List ℕ) (time : ℕ) (last : Bool)
      → (frames : List Frame) → IsByte b
      → IsU32 time
      → Amid p u part time frames
      → Sent
          (send on_packet p
            (rtp_packet p time last (indicator b ∷ bit_or (later_header b) 0x40 ∷ nalu)))
          u
          (frames ++ (frame_of (part ++ nalu) time ∷ []))
  unfolding give_frame
  end_fragment p u b part nalu time last frames h t a =
      let pkg = rtp_packet p time last (indicator b ∷ bit_or (later_header b) 0x40 ∷ nalu) in
      let v = a.receiver in
      let k = fragment v p time last b h _ nalu true (last_Header b h) a.next in
      record {
        no_error = send-none on_packet accepts p pkg;
        ready = record {
          fits = send-Fits on_packet accepts p pkg a.fits;
          receiver = _;
          fed = feed-send on_packet accepts p time last _ u v _ a.fits t a.fed k;
          clean = ap (λ (x : List ℕ). take 4 (x ++ nalu)) a.buffer;
          given = λ i.
              a.given i
              ++ (record { data_bytes = a.buffer i ++ nalu; timestamp = a.timed i; lost = a.kept i }
                  ∷ []);
        };
      }

  later_fragment :
      (p : H264Packer) (u : H264UnPacker) (b : ℕ) (part nalu : List ℕ) (time : ℕ)
      → (frames : List Frame) → IsByte b
      → IsU32 time
      → Amid p u part time frames
      → Amid
          (send on_packet p (rtp_packet p time false (indicator b ∷ later_header b ∷ nalu))).1
          u
          (part ++ nalu)
          time
          frames
  unfolding send
  later_fragment p u b part nalu time frames h t a =
      let pkg = rtp_packet p time false (indicator b ∷ later_header b ∷ nalu) in
      let v = a.receiver in
      let k = fragment v p time false b h _ nalu false (later_Header b h) a.next in
      record {
        fits = send-Fits on_packet accepts p pkg a.fits;
        receiver = _;
        fed = feed-send on_packet accepts p time false _ u v _ a.fits t a.fed k;
        buffer = ap (λ (x : List ℕ). x ++ nalu) a.buffer;
        next = refl;
        timed = a.timed;
        kept = a.kept;
        given = a.given;
      }

  begin_fragment :
      (p : H264Packer) (u : H264UnPacker) (b : ℕ) (nalu : List ℕ) (time : ℕ)
      → (frames : List Frame) → IsByte b
      → IsU32 time
      → Ready p u frames
      → Amid
          (send on_packet p (rtp_packet p time false (indicator b ∷ first_header b ∷ nalu))).1
          u
          (b ∷ nalu)
          time
          frames
  unfolding send
  begin_fragment p u b nalu time frames h t a =
      let pkg = rtp_packet p time false (indicator b ∷ first_header b ∷ nalu) in
      let v = a.receiver in
      let k = first_fragment v p time false b h _ nalu false (first_Header b h) a.clean in
      record {
        fits = send-Fits on_packet accepts p pkg a.fits;
        receiver = _;
        fed = feed-send on_packet accepts p time false _ u v _ a.fits t a.fed k;
        buffer = ap (λ (x : List ℕ). (x ++ (b ∷ [])) ++ nalu) a.clean;
        next = refl;
        timed = refl;
        kept = refl;
        given = a.given;
      }

  only_fragment :
      (p : H264Packer) (u : H264UnPacker) (b : ℕ) (nalu : List ℕ) (time : ℕ) (last : Bool)
      → (frames : List Frame) → IsByte b
      → IsU32 time
      → Ready p u frames
      → Sent
          (send on_packet p
            (rtp_packet p time last (indicator b ∷ bit_or (first_header b) 0x40 ∷ nalu)))
          u
          (frames ++ (frame_of (b ∷ nalu) time ∷ []))
  unfolding give_frame
  only_fragment p u b nalu time last frames h t a =
      let pkg = rtp_packet p time last (indicator b ∷ bit_or (first_header b) 0x40 ∷ nalu) in
      let v = a.receiver in
      let k = first_fragment v p time last b h _ nalu true (only_Header b h) a.clean in
      record {
        no_error = send-none on_packet accepts p pkg;
        ready = record {
          fits = send-Fits on_packet accepts p pkg a.fits;
          receiver = _;
          fed = feed-send on_packet accepts p time last _ u v _ a.fits t a.fed k;
          clean = ap (λ (x : List ℕ). take 4 ((x ++ (b ∷ [])) ++ nalu)) a.clean;
          given = λ i.
              a.given i
              ++ (record {
                data_bytes = (a.clean i ++ (b ∷ [])) ++ nalu;
                timestamp = time;
                lost = false;
              }
                  ∷ []);
        };
      }

  -- The rounds behind the first.
  later_rounds :
      (fuel : ℕ) (p : H264Packer) (u : H264UnPacker) (b : ℕ) (part nalu : List ℕ) (time : ℕ)
      → (last : Bool) (frames : List Frame) → IsByte b
      → IsU32 time
      → Amid p u part time frames
      → length nalu < fuel
      → Sent
          (fu_a_loop on_packet fuel p (indicator b) (later_header b) nalu time last)
          u
          (frames ++ (frame_of (part ++ nalu) time ∷ []))
  later_rounds zero p u b part nalu time last frames h t a f = absurd (omega arith)
  later_rounds (suc fuel) p u b part nalu time last frames h t a f =
      elim (lt_or_ge p.mtu (length nalu + 14)) [
        | inr room ↦
            subst (λ r. Sent r u (frames ++ (frame_of (part ++ nalu) time ∷ [])))
              (sym (loop_end fuel p (indicator b) (later_header b) nalu time last room))
              (end_fragment p u b part nalu time last frames h t a)
        | inl long ↦
            let n : ℕ = p.mtu - 2 - 12 in
            let a' = later_fragment p u b part (take n nalu) time frames h t a in
            let ih =
              later_rounds fuel _ u b (part ++ take n nalu) (drop n nalu) time last frames h t a'
                (omega (arith, length-drop n nalu, a.fits.roomy)) in
            let s = (later_Header b h).starts in
            let q : (if ltb 0 (bit_and (later_header b) 0x80)
                  then bit_and (later_header b) 0x7F
                  else later_header b)
                ≡ later_header b =
              ap (λ (c : Bool). if c then bit_and (later_header b) 0x7F else later_header b) s in
            subst₂ (λ r x. Sent r u (frames ++ (frame_of x time ∷ [])))
              (sym (
                loop_on fuel p (indicator b) (later_header b) (later_header b) nalu time last long
                  q))
              (joined part n nalu) ih
      ]

  loop_begin :
      (p : H264Packer) (b c : ℕ) (nalu : List ℕ) (time : ℕ) (last : Bool)
      → 14 < p.mtu
      → pack_fu_a on_packet p (b ∷ c ∷ nalu) time last
        ≡ fu_a_loop on_packet
            (length (b ∷ c ∷ nalu))
            p
            (indicator b)
            (first_header b)
            (c ∷ nalu)
            time
            last
  unfolding pack_fu_a
  loop_begin p b c nalu time last h = let m : leb p.mtu (12 + 2) ≡ false = lt→leb _ _ h in rw m

  -- A unit of two bytes at least, the first of which is a byte, sent in fragments by a packer whose
  -- fields fit and whose mtu has room for a fragment's byte, to a callback that gives no error, is sent
  -- without an error: an unpacker that is given all packets of the packer, and whose buffer is clean
  -- before, is given just this unit behind a start code, at its time and not lost, and is clean again.
  pub unpack-pack_fu_a :
      (p : H264Packer) (u : H264UnPacker) (b c : ℕ) (nalu : List ℕ) (time : ℕ) (last : Bool)
      → (frames : List Frame) → IsByte b
      → IsU32 time
      → Ready p u frames
      → Sent
          (pack_fu_a on_packet p (b ∷ c ∷ nalu) time last)
          u
          (frames ++ (frame_of (b ∷ c ∷ nalu) time ∷ []))
  unpack-pack_fu_a p u b c nalu time last frames h t a =
      let start : Sent
          (fu_a_loop on_packet (length (b ∷ c ∷ nalu)) p (indicator b) (first_header b) (c ∷ nalu)
            time last)
          u (frames ++ (frame_of (b ∷ c ∷ nalu) time ∷ [])) =
        elim (lt_or_ge p.mtu (length (c ∷ nalu) + 14)) [
          | inr room ↦
              subst (λ r. Sent r u (frames ++ (frame_of (b ∷ c ∷ nalu) time ∷ [])))
                (sym (loop_end _ p (indicator b) (first_header b) (c ∷ nalu) time last room))
                (only_fragment p u b (c ∷ nalu) time last frames h t a)
          | inl long ↦
              let n : ℕ = p.mtu - 2 - 12 in
              let a' = begin_fragment p u b (take n (c ∷ nalu)) time frames h t a in
              let s = (first_Header b h).starts in
              let q : (if ltb 0 (bit_and (first_header b) 0x80)
                    then bit_and (first_header b) 0x7F
                    else first_header b)
                  ≡ later_header b =
                ap (λ (d : Bool). if d then bit_and (first_header b) 0x7F else first_header b) s in
              subst₂ (λ r x. Sent r u (frames ++ (frame_of x time ∷ [])))
                (sym (
                  loop_on _ p (indicator b) (first_header b) (later_header b) (c ∷ nalu) time last
                    long q))
                (joined (b ∷ []) n (c ∷ nalu))
                (later_rounds _ _ u b (b ∷ take n (c ∷ nalu)) (drop n (c ∷ nalu)) time last frames h
                  t a' (omega (arith, length-drop n (c ∷ nalu), a.fits.roomy)))
        ] in
      subst (λ r. Sent r u (frames ++ (frame_of (b ∷ c ∷ nalu) time ∷ [])))
        (sym (loop_begin p b c nalu time last a.fits.roomy)) start
