-- ===== src/BlockFiles/Tests.antt =====
-- The theorems on the scan of the block files at concrete inputs.
use bitcoinstats.Common.{ℕ, ◌≡◌, refl, arith, false, true, Option, none}
use bitcoinstats.Common.{List, [], ◌∷◌, ◌++◌, length, replicate}
use bitcoinstats.BlockChain.Stream.{ok}
use bitcoinstats.BlockFiles.{Scanner, fseek, file_of, put_file}
use bitcoinstats.BlockFiles.Scan.{read_block_header}
use bitcoinstats.BlockFiles.Frames.{frame_bytes, scanned, IsBlockData}
use bitcoinstats.BlockFiles.Found.{BlockFound, read_block_header-BlockFound}
use bitcoinstats.BlockFiles.Resuming.{IsJunk, HasNoMagic}
use bitcoinstats.BlockFiles.Skipping.{read_block_header-junk}
use bitcoinstats.BlockFiles.Scanning.{scan_all}
use bitcoinstats.BlockFiles.Collecting.{frames, AtBlocks, Collected, scan_all-Collected}

abbrev a_block : List ℕ
a_block = replicate 80 7

abbrev some_junk : List ℕ
some_junk = 1 ∷ 0xF9 ∷ 2 ∷ []

abbrev no_files : ℕ → Option (List ℕ)
no_files i = none

-- A scan of one file that begins with these bytes.
abbrev scan_of : List ℕ → Scanner
scan_of contents = record {
  block_data_files = record { contents = contents; position = 0 } ∷ [];
  block_index = 0;
  file_length = length contents;
  scan_count = 0;
  last_block_header = record {
    hash = [];
    file_index = 0;
    file_offset = 0;
    block_length = 0;
    previous_block_hash = [];
  };
  block_header_set = [];
}

a_block-IsBlockData : IsBlockData a_block
a_block-IsBlockData = record { has_header = omega arith; is_small = omega arith }

read_block_header_example :
    BlockFound
      (scan_of (frame_bytes a_block ++ []))
      a_block
      (read_block_header no_files false (scan_of (frame_bytes a_block ++ [])))
unfolding frame_bytes
read_block_header_example =
    read_block_header-BlockFound no_files false (scan_of (frame_bytes a_block ++ [])) a_block
      (omega arith) a_block-IsBlockData (omega arith)
      (record { rest = []; stands = refl; inside = omega arith })

some_junk-IsJunk : IsJunk some_junk
unfolding HasNoMagic
some_junk-IsJunk = record {
  not_empty = omega arith;
  in_reach = omega arith;
  no_magic = (
    (λ e. absurd (omega (arith, e))),
    ((λ e. absurd (omega (arith, e))), ((λ e. absurd (omega (arith, e))), tt)),
  );
}

read_block_header_junk_example :
    read_block_header no_files false (scan_of ((some_junk ++ frame_bytes a_block) ++ []))
    ≡ ok (
      true,
      scanned
          (put_file
            (scan_of ((some_junk ++ frame_bytes a_block) ++ []))
            (fseek 3 (file_of (scan_of ((some_junk ++ frame_bytes a_block) ++ [])))))
          a_block,
    )
unfolding frame_bytes
read_block_header_junk_example =
    read_block_header-junk no_files false (scan_of ((some_junk ++ frame_bytes a_block) ++ []))
      some_junk a_block (omega arith) some_junk-IsJunk a_block-IsBlockData (omega arith)
      (record { rest = []; stands = refl; inside = omega arith })

-- A file of two blocks.
abbrev two_blocks : Scanner
two_blocks = scan_of (frames (a_block ∷ replicate 90 8 ∷ []))

two_blocks-AtBlocks : AtBlocks no_files two_blocks (a_block ∷ replicate 90 8 ∷ [])
unfolding frame_bytes
two_blocks-AtBlocks = record {
  inside = omega arith;
  last_file = refl;
  stands = refl;
  not_behind = omega arith;
  place_fits = omega arith;
  blocks_fit =
      (a_block-IsBlockData, (record { has_header = omega arith; is_small = omega arith }, tt));
}

scan_all-Collected_example :
    Collected two_blocks (a_block ∷ replicate 90 8 ∷ []) (scan_all no_files false 5 3 0 two_blocks)
scan_all-Collected_example =
    scan_all-Collected no_files false 5 0 two_blocks (a_block ∷ replicate 90 8 ∷ [])
      two_blocks-AtBlocks (omega arith) (omega arith)
