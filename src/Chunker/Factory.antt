-- ===== src/Chunker/Factory.antt =====
-- include/dedup/chunker_factory.h, and the choice of a chunker in src/app/chunking_test.cc.
pub mod Run
use my_codebase.Base.{ℕ, List, Option, none, some, ◌==◌, ◌||◌, leb, if◌then◌else◌}
use my_codebase.Configure.{Configure, Reading, done, exits, faults, ◌>>=◌}
use my_codebase.Chunker.{AbsChunker, new_abs_chunker}
use my_codebase.Chunker.Interface.{Chunking}
use my_codebase.Chunker.Instances.{fixed, fast_cdc, rabin_cdc}
use my_codebase.Chunker.FastCdc.{new_fast_cdc}
use my_codebase.Chunker.RabinCdc.{RabinChunker, new_rabin_chunker}

-- `CHUNKER_TYPE`.
abbrev pub fixed_size_chunking : ℕ
fixed_size_chunking = 0

abbrev pub rabin_fp_chunking : ℕ
rabin_fp_chunking = 1

abbrev pub fast_cdc_chunking : ℕ
fast_cdc_chunking = 2

abbrev pub fsl_trace : ℕ
fsl_trace = 3

abbrev pub ms_trace : ℕ
ms_trace = 4

-- An `AbsChunker*`: a chunker of some kind.
pub record AnyChunker : Type 1 where
  pub kind : Chunking
  pub state : kind.State

-- `new RabinChunker()` faults where the shift in its constructor overflows.
unfoldable pub rabin_object : Option RabinChunker → Reading AnyChunker
rabin_object none = faults
rabin_object (some c) = done (record { kind = rabin_cdc; state = c })

-- `ChunkerFactory::CreateChunker(type)`, on the global configuration; `memory` is `malloc`.
unfoldable pub create_chunker : Configure → (ℕ → List ℕ) → ℕ → Reading AnyChunker
create_chunker config memory type =
    let base = new_abs_chunker config memory in
    if type == rabin_fp_chunking
    then rabin_object (new_rabin_chunker base config.chunker_sliding_win_size)
    else if type == fast_cdc_chunking
    then done (record { kind = fast_cdc; state = new_fast_cdc base })
    else if type == fixed_size_chunking
    then done (record { kind = fixed; state = base })
    else exits

-- The option `-t` of the program, for `atoi(optarg)`.
unfoldable pub parse_type : ℕ → Reading ℕ
parse_type type =
    if type == fixed_size_chunking
    then done fixed_size_chunking
    else if type == rabin_fp_chunking
    then done rabin_fp_chunking
    else if type == fast_cdc_chunking
    then done fast_cdc_chunking
    else if type == fsl_trace
    then done fsl_trace
    else if type == ms_trace
    then done ms_trace
    else exits

-- The program's own `switch`, which leaves `test_chunker` without a value for the other types.
unfoldable pub test_chunker : Configure → (ℕ → List ℕ) → ℕ → Reading AnyChunker
test_chunker config memory type =
    let base = new_abs_chunker config memory in
    if type == fixed_size_chunking
    then done (record { kind = fixed; state = base })
    else if type == rabin_fp_chunking
    then rabin_object (new_rabin_chunker base config.chunker_sliding_win_size)
    else if type == fast_cdc_chunking
    then done (record { kind = fast_cdc; state = new_fast_cdc base })
    else faults

unfoldable pub chosen_chunker : Configure → (ℕ → List ℕ) → ℕ → Reading AnyChunker
chosen_chunker config memory option = do type ← parse_type option; test_chunker config memory type
