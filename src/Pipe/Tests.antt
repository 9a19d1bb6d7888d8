-- ===== src/Pipe/Tests.antt =====
-- A pipe of four bytes that holds two, the second one at the start of the buffer.
use campix.Base.{◌≡◌, refl, false, [], ◌∷◌, arith, ◌++◌, ok}
use campix.Pipe.{Pipe, is_full, is_empty, read, write}
use campix.Pipe.Queue.{IsValid, contents, Reads, read-Reads}
use campix.Pipe.Queue.Write.{Writes, write-Writes}
use campix.Pipe.Queue.Fifo.{write_then_read, write_then_read-eq}

abbrev wrapped : Pipe
wrapped = record {
  bytes = 2 ∷ 7 ∷ 7 ∷ 1 ∷ [];
  data_len = 2;
  write_pos = 1;
  read_pos = 3;
  created_at = 0;
  modified_at = 0;
  readers = 1;
  writers = 1;
  closed = false;
}

wrapped-IsValid : IsValid wrapped
wrapped-IsValid = record {
  within = omega arith;
  read_inside = λ h. omega arith;
  write_behind = λ h. refl;
  fits_usize = omega arith;
}

read-Reads_example : Reads 5 wrapped (read 5 wrapped)
read-Reads_example = read-Reads 5 wrapped wrapped-IsValid

write-Writes_example : Writes (3 ∷ 4 ∷ 5 ∷ []) wrapped (write (3 ∷ 4 ∷ 5 ∷ []) wrapped)
write-Writes_example = write-Writes (3 ∷ 4 ∷ 5 ∷ []) wrapped wrapped-IsValid

write_then_read-eq_example :
    write_then_read (3 ∷ 4 ∷ []) wrapped ≡ ok (contents wrapped ++ 3 ∷ 4 ∷ [], [])
write_then_read-eq_example = write_then_read-eq (3 ∷ 4 ∷ []) wrapped wrapped-IsValid (omega arith)

contents_run : contents wrapped ≡ 1 ∷ 2 ∷ []
contents_run = refl

read_run : read 5 wrapped ≡ ok (1 ∷ 2 ∷ [], record wrapped { read_pos = 1; data_len = 0 })
unfolding read
read_run = refl

write_run :
    write (3 ∷ 4 ∷ 5 ∷ []) wrapped
    ≡ ok (2, record wrapped { bytes = 2 ∷ 3 ∷ 4 ∷ 1 ∷ []; write_pos = 3; data_len = 4 })
unfolding write
write_run = refl

is_full_run : is_full wrapped ≡ false
unfolding is_full
is_full_run = refl

is_empty_run : is_empty wrapped ≡ false
unfolding is_empty
is_empty_run = refl
