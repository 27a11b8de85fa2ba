-- ===== src/HeaderChain/Tests.antt =====
-- The theorem on `buildBlockChain` at a concrete input, and a run of it.
use bitcoinstats.Common.{ℕ, ◌≡◌, refl, arith, some, [], ◌∷◌, get_or}
use bitcoinstats.Common.Equality.{same_bytes}
use bitcoinstats.Common.Options.{◌>>=◌}
use bitcoinstats.BlockFiles.{BlockHeader, find_header}
use bitcoinstats.HeaderChain.{HeaderChain, build_block_chain, build_headers, count_blocks}
use bitcoinstats.HeaderChain.{gather_headers}
use bitcoinstats.HeaderChain.Links.{ChainBuilt, build_block_chain-ChainBuilt}

abbrev header : ℕ → ℕ → BlockHeader
header own previous = record {
  hash = own ∷ [];
  file_index = 0;
  file_offset = 0;
  block_length = 0;
  previous_block_hash = previous ∷ [];
}

-- Three blocks, of which the second and the third follow the first.
abbrev three_headers : HeaderChain
three_headers = record {
  scanner = record {
    block_data_files = [];
    block_index = 0;
    file_length = 0;
    scan_count = 3;
    last_block_header = header 3 1;
    block_header_set = header 3 1 ∷ header 2 1 ∷ header 1 0 ∷ [];
  };
  block_count = 0;
  block_chain_headers = [];
}

three_headers_run :
    build_headers 4 [] three_headers.scanner ≡ some (2, header 1 0 ∷ header 3 1 ∷ [])
unfolding build_headers count_blocks gather_headers find_header same_bytes ◌>>=◌
three_headers_run = refl

build_block_chain_example : ChainBuilt three_headers (build_block_chain [] three_headers)
build_block_chain_example =
    build_block_chain-ChainBuilt [] three_headers (λ h. get_or h 0 0) (omega arith) (omega arith)
      (omega arith, (omega arith, (omega arith, tt)))
