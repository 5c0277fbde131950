-- ===== src/Chunker/Instances.antt =====
-- The three chunkers fill the interface.
use my_codebase.Base.{ℕ, ◌<◌, ◌≤◌, arith, ◌≡◌, refl, All-append, All-drop, length, drop}
use my_codebase.Rabin.{new_ctx}
use my_codebase.Stream.{IStream, read, IsBytes, read-IsBytes}
use my_codebase.Chunker.{AbsChunker, load_data_from_file, advance}
use my_codebase.Chunker.Interface.{Chunking}
use my_codebase.Chunker.Fixed
use my_codebase.Chunker.FastCdc
use my_codebase.Chunker.RabinCdc
use my_codebase.Chunker.FastCdc.{FastCdc}
use my_codebase.Chunker.FastCdc.Cut.{IsFast}
use my_codebase.Chunker.FastCdc.Sizes
use my_codebase.Chunker.RabinCdc.{RabinChunker}
use my_codebase.Chunker.RabinCdc.Boundary

pub load-IsBytes :
    (c : AbsChunker) (f : IStream)
    → IsBytes c.read_data_buf
    → IsBytes f.rest
    → IsBytes (load_data_from_file c f).1.read_data_buf
unfolding load_data_from_file
load-IsBytes c f old new =
    let got = (read c.read_size f).0 in
    All-append (λ x. x < 256) got (drop (length got) c.read_data_buf)
      (read-IsBytes c.read_size f new).0 (All-drop (λ x. x < 256) (length got) c.read_data_buf old)

-- The fixed-size chunker has no part of its own.
abbrev pub fixed : Chunking
fixed = record {
  State = AbsChunker;
  base = λ c. c;
  with_base = λ c b. b;
  generate = Fixed.generate_one_chunk;
  IsReady = λ c. Unit {0};
  base-with_base = λ c b. refl;
  ready_load = λ c f r h. tt;
  generate_end = Fixed.generate_one_chunk_end;
  generate_cut = λ c r v more.
      let (bytes, c', e, cut) = Fixed.generate_one_chunk_fixed-IsCut c v more in
      (_, bytes, c', e, cut, tt);
}

pub load-IsFast :
    (c : FastCdc) (f : IStream)
    → IsFast c
    → IsFast (record c { base = (load_data_from_file c.base f).1 })
unfolding load_data_from_file
load-IsFast c f v = record { min_max = v.min_max; normal_max = v.normal_max; max_word = v.max_word }

pub cut-IsFast :
    (c : FastCdc) (n : ℕ) (c' : AbsChunker)
    → IsFast c
    → IsBytes c.base.read_data_buf
    → c' ≡ advance c.base n
    → IsFast (record c { base = c' }) × IsBytes c'.read_data_buf
unfolding advance
cut-IsFast c n c' v h e =
    rw e (record { min_max = v.min_max; normal_max = v.normal_max; max_word = v.max_word }, h)

-- FastCDC needs its sizes, and a buffer of bytes.
abbrev pub fast_cdc : Chunking
fast_cdc = record {
  State = FastCdc;
  base = λ c. c.base;
  with_base = λ c b. record c { base = b };
  generate = FastCdc.generate_one_chunk;
  IsReady = λ c. IsFast c × IsBytes c.base.read_data_buf;
  base-with_base = λ c b. refl;
  ready_load = λ c f r h. (load-IsFast c f r.0, load-IsBytes c.base f r.1 h);
  generate_end = FastCdc.Sizes.generate_one_chunk_end;
  generate_cut = λ c r v more.
      let (n, bytes, c', e, cut) = FastCdc.Sizes.generate_one_chunk_fast-IsCut c v r.0 r.1 more in
      (n, bytes, record c { base = c' }, e, cut, cut-IsFast c n c' r.0 r.1 cut.moved);
}

-- The Rabin chunker's window has bytes, and is empty between chunks.
abbrev pub rabin_cdc : Chunking
rabin_cdc = record {
  State = RabinChunker;
  base = λ c. c.base;
  with_base = λ c b. record c { base = b };
  generate = RabinCdc.generate_one_chunk;
  IsReady = λ c. (c.rabin_ctx ≡ new_ctx c.rabin_util) × (1 ≤ c.rabin_util.window_size);
  base-with_base = λ c b. refl;
  ready_load = λ c f r h. r;
  generate_end = RabinCdc.Boundary.generate_one_chunk_end;
  generate_cut = λ c r v more.
      let (n, bytes, c', e, cut, first, new, same) =
        RabinCdc.Boundary.generate_one_chunk_rabin-IsCut c v more r.0 r.1 in
      (n, bytes, c', e, cut, (new, omega (arith, same, r.1)));
}
