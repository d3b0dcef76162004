-- ===== src/Runs/Streams.antt =====
-- The properties of frame splitting, of H.264 payloads and of sample tables at concrete inputs.
use gomediautils.Mp4.Sizes.{stsz_table, sample_sizes, sample_sizes-stsz_table}
use gomediautils.Prelude.{
  Option, ℕ, ◌≡◌, refl, ap, arith, List, [], ◌∷◌, ◌++◌, Bool, true, false, inl, none, some, ok, err,
  ◌>>=◌,
}
use gomediautils.Prelude.Int.{pos, negsuc, neg_part}
use gomediautils.Mp4.Times.Start.{start_time-last_empty}
use gomediautils.Prelude.Bytes.{read_u32_be}
use gomediautils.Codec.Nalu.{split_frame, covert_rbsp_to_sodb}
use gomediautils.Codec.Nalu.Search.{coded}
use gomediautils.Codec.Nalu.Split.{annex_b, split_frame-coded}
use gomediautils.Codec.Nalu.Escape.{prevent, covert_rbsp_to_sodb-prevent}
use gomediautils.Mp4.Box.{FullBox, new_full_box}
use gomediautils.Mp4.Table.{read_entries}
use gomediautils.Mp4.Tables.Refuses.{refusal, read_entries-refuses}
use gomediautils.Mp4.Tables.Offsets.{last_offset}
use gomediautils.Mp4.Tables.Counted.{counted_stsc}
use gomediautils.Mp4.Stbl.{Movstbl, no_tables, last_stbl, put_stbl, read_tables, make_tables}
use gomediautils.Mp4.Stbl.RoundTrip.{
  FitsStbl, IfThere, counted_only, count_boxes, key_frames, read_tables-make_tables,
}
use gomediautils.Mp4.Times.{
  SampleEntry, stts_table, ElstEntry, first_time, start_time, decode_times, ctts_table,
  presentation_times,
}
use gomediautils.Mp4.Times.RoundTrip.{times_from, Ascending, decode_times-stts_table}
use gomediautils.Mp4.Times.Offsets.{presentation_times-ctts_table}
use gomediautils.Mp4.Chunks.{
  Place, make_chunks, stsc_table, stco_table, track_chunks, track_offsets,
}
use gomediautils.Mp4.Chunks.Samples.{from_one, track_chunks-make_chunks}
use gomediautils.Mp4.Chunks.Places.{track_offsets-make_chunks}
use gomediautils.Rtp.H264.Packer.{H264Packer, pack, pack_fu_a}
use gomediautils.Rtp.H264.UnPacker.{H264UnPacker}
use gomediautils.Rtp.H264.Feed.{Ready, feed}
use gomediautils.Rtp.H264.Rounds.{Sent, frame_of, unpack-pack_fu_a}
use gomediautils.Rtp.H264.AccessUnit.{frames_of, un_pack-pack}

abbrev long_unit : List ℕ
long_unit = 0x65 ∷ 1 ∷ 2 ∷ 3 ∷ 4 ∷ 5 ∷ []

abbrev units : List (List ℕ)
units = long_unit ∷ (0x41 ∷ 0 ∷ 0 ∷ 2 ∷ []) ∷ []

-- The second unit has the short start code.
split_frame-coded_example :
    split_frame
      (λ _. true)
      (coded ((true, long_unit) ∷ (false, 0x41 ∷ 0 ∷ 0 ∷ 2 ∷ []) ∷ (true, 0x41 ∷ []) ∷ []))
    ≡ long_unit ∷ (0x41 ∷ 0 ∷ 0 ∷ 2 ∷ []) ∷ (0x41 ∷ []) ∷ []
split_frame-coded_example =
    split_frame-coded ((true, long_unit) ∷ (false, 0x41 ∷ 0 ∷ 0 ∷ 2 ∷ []) ∷ (true, 0x41 ∷ []) ∷ [])
      (
        (refl, (refl, (refl, (refl, (refl, omega arith))))),
        (((refl, (refl, (refl, omega arith)))), (omega arith, tt)),
      )

abbrev payload : List ℕ
payload = 0 ∷ 0 ∷ 1 ∷ 0 ∷ 0 ∷ 0 ∷ 3 ∷ 7 ∷ []

covert_rbsp_to_sodb-prevent_example : covert_rbsp_to_sodb (prevent 0 payload) ≡ payload
covert_rbsp_to_sodb-prevent_example = covert_rbsp_to_sodb-prevent payload

abbrev short_box : FullBox
short_box = record (new_full_box (0x73 ∷ 0x74 ∷ 0x63 ∷ 0x6F ∷ []) 0) {
  box = record { size = 20; box_type = 0x73 ∷ 0x74 ∷ 0x63 ∷ 0x6F ∷ []; user_type = [] };
}

read_entries-refuses_example :
    read_entries read_u32_be 4 short_box 4 1000 [] ≡ err (refusal 20 4 4000)
read_entries-refuses_example =
    read_entries-refuses read_u32_be 4 4 1000 short_box [] (omega arith) (omega arith)

-- A packer with room for four bytes of a unit in a fragment.
abbrev sender : H264Packer
sender = record {
  mtu = 16;
  ssrc = 7;
  pt = 96;
  sequence = 65535;
  stap_a = false;
  sps = [];
  pps = [];
  sent = [];
}

abbrev receiver : H264UnPacker
receiver = record {
  timestamp = 0;
  last_sequence = 0;
  lost = false;
  frame_buffer = 0 ∷ 0 ∷ 0 ∷ 1 ∷ [];
  frames = [];
}

sender-Ready : Ready sender receiver []
unfolding feed
sender-Ready = record {
  fits = record {
    pt_small = omega arith;
    sequence_u16 = omega arith;
    ssrc_u32 = omega arith;
    roomy = omega arith;
  };
  receiver = receiver;
  fed = refl;
  clean = refl;
  given = refl;
}

unpack-pack_fu_a_example :
    Sent
      (pack_fu_a (λ _ _. true) sender long_unit 3000 true)
      receiver
      (frame_of long_unit 3000 ∷ [])
unpack-pack_fu_a_example =
    unpack-pack_fu_a (λ _ _. true) (λ _ _. refl) sender receiver 0x65 1 (2 ∷ 3 ∷ 4 ∷ 5 ∷ []) 3000
      true [] (omega arith) (omega arith) sender-Ready

un_pack-pack_example :
    Sent (pack (λ _ _. true) sender (annex_b units) 3000) receiver (frames_of units 3000)
un_pack-pack_example =
    un_pack-pack (λ _ _. true) (λ _ _. refl) sender receiver units 3000 []
      (
        (refl, (refl, (refl, (refl, (refl, omega arith))))),
        (((refl, (refl, (refl, omega arith)))), tt),
      )
      ((omega arith, (omega arith, omega arith)), ((omega arith, (omega arith, omega arith)), tt))
      (omega arith) refl sender-Ready

abbrev tables : Movstbl
tables = record {
  stts =
      some
        (record { entry_count = 1; entrys = record { sample_count = 3; sample_delta = 40 } ∷ [] });
  ctts = none;
  stsc = some (record {
    entry_count = 1;
    entrys = record { first_chunk = 1; samples_per_chunk = 1; sample_description_index = 1 } ∷ [];
  });
  stsz = some (record { sample_size = 0; sample_count = 3; entry_sizelist = 100 ∷ 20 ∷ 30 ∷ [] });
  stco = some (record { entry_count = 2; chunk_offsetlist = 48 ∷ 5000000000 ∷ [] });
  stss = none;
}

abbrev keys : List Bool
keys = true ∷ false ∷ true ∷ []

tables-FitsStbl : FitsStbl keys tables
unfolding IfThere last_offset counted_stsc
tables-FitsStbl = record {
  stts_fits = record {
    counted = refl;
    few = omega arith;
    fields = ((omega arith, omega arith), tt);
  };
  ctts_fits = tt;
  stsc_fits = record {
    counted = refl;
    few = omega arith;
    fields = ((omega arith, (omega arith, omega arith)), tt);
  };
  stsz_fits = record {
    size_fits = omega arith;
    count_fits = omega arith;
    form = inl (
      refl,
      record {
        counted = refl;
        few = omega arith;
        fields = (omega arith, (omega arith, (omega arith, tt)));
      },
    );
  };
  stco_fits = record {
    fits = record { counted = refl; few = omega arith; fields = (omega arith, (omega arith, tt)) };
    ascending = (omega arith, (omega arith, tt));
  };
  keys_few = omega arith;
}

read_tables-make_tables_example :
    make_tables true keys tables >>= (λ bytes. ok (
      read_tables
        (count_boxes true keys tables)
        (record { reader = bytes ++ (9 ∷ []); tracks = none ∷ some no_tables ∷ [] })))
    ≡ ok (
        some (
          ok (record {
            reader = 9 ∷ [];
            tracks =
                put_stbl
                  (record tables {
                    stsc = counted_only tables.stsc;
                    stss = key_frames true keys tables;
                  })
                  (none ∷ some no_tables ∷ []);
          })))
read_tables-make_tables_example =
    read_tables-make_tables true keys tables (9 ∷ []) (none ∷ some no_tables ∷ []) tables-FitsStbl
      (unfold last_stbl in refl)

-- A track that starts at 100, and whose edit list leaves half a second empty: 500 of the movie's 1000
-- ticks in a second are 45000 of the track's 90000.
abbrev delayed : Option (List ElstEntry)
delayed = some (
    record { segment_duration = 500; media_time = negsuc 0 }
    ∷ record { segment_duration = 900; media_time = pos 0 }
    ∷ [])

decode_times-stts_table_example :
    decode_times 4 1000 90000 delayed (stts_table (100 ∷ 140 ∷ 180 ∷ 181 ∷ []))
    ≡ some (45000 ∷ 45040 ∷ 45080 ∷ 45081 ∷ [])
unfolding first_time times_from
decode_times-stts_table_example =
    decode_times-stts_table 1000 90000 delayed 100 (140 ∷ 180 ∷ 181 ∷ [])
      (unfold Ascending in
        (
          omega arith,
          (
            omega arith,
            (
              omega arith,
              (
                omega arith,
                (omega arith, (omega arith, (omega arith, (omega arith, (omega arith, tt))))),
              ),
            ),
          ),
        ))
      (omega arith)

start_time-last_empty_example :
    start_time 1000 90000 (
      some (
        record { segment_duration = 250; media_time = negsuc 0 }
        ∷ record { segment_duration = 500; media_time = negsuc 0 }
        ∷ record { segment_duration = 900; media_time = pos 0 }
        ∷ []))
    ≡ some 45000
start_time-last_empty_example =
    start_time-last_empty 1000 90000 (record { segment_duration = 250; media_time = negsuc 0 } ∷ [])
      (record { segment_duration = 500; media_time = negsuc 0 })
      (record { segment_duration = 900; media_time = pos 0 } ∷ []) (omega arith) refl
      ((λ e. let z = ap neg_part e in absurd (omega (arith, z))), tt)

abbrev reordered : List SampleEntry
reordered = record { pts = 40; dts = 0 } ∷ record { pts = 30; dts = 40 } ∷ []

presentation_times-ctts_table_example :
    presentation_times (ctts_table reordered) (0 ∷ 40 ∷ []) ≡ 40 ∷ 30 ∷ []
presentation_times-ctts_table_example =
    presentation_times-ctts_table reordered
      (
        record {
          ahead = omega arith;
          behind = omega arith;
          pts_small = omega arith;
          dts_small = omega arith;
        },
        (
          record {
            ahead = omega arith;
            behind = omega arith;
            pts_small = omega arith;
            dts_small = omega arith;
          },
          tt,
        ),
      )
      (omega arith)

-- Two samples in a chunk, and one in another.
abbrev placed : List Place
placed =
    record { offset = 48; size = 10 }
    ∷ record { offset = 58; size = 20 }
    ∷ record { offset = 100; size = 5 }
    ∷ []

track_chunks-make_chunks_example :
    track_chunks (counted_stsc (stsc_table (make_chunks placed))) (stco_table (make_chunks placed))
    ≡ some (from_one (make_chunks placed))
track_chunks-make_chunks_example =
    track_chunks-make_chunks (record { offset = 48; size = 10 })
      (record { offset = 58; size = 20 } ∷ record { offset = 100; size = 5 } ∷ []) (omega arith)

track_offsets-make_chunks_example :
    track_offsets
      (counted_stsc (stsc_table (make_chunks placed)))
      (stco_table (make_chunks placed))
      (10 ∷ 20 ∷ 5 ∷ [])
    ≡ some (48 ∷ 58 ∷ 100 ∷ [])
track_offsets-make_chunks_example =
    track_offsets-make_chunks (record { offset = 48; size = 10 })
      (record { offset = 58; size = 20 } ∷ record { offset = 100; size = 5 } ∷ []) (omega arith)

-- Three samples, not all of the same size, in a file with bytes around them.
sample_sizes-stsz_table_example :
    sample_sizes 100 (stsz_table (10 ∷ 20 ∷ 10 ∷ [])) ≡ some (10 ∷ 20 ∷ 10 ∷ [])
sample_sizes-stsz_table_example =
    sample_sizes-stsz_table 100 10 (20 ∷ 10 ∷ []) (omega arith, (omega arith, (omega arith, tt)))
      (omega arith) (omega arith)
