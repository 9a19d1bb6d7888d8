-- ===== src/Pipe/Queue/Fifo.antt =====
-- The pipe from its creation on: it starts empty, and what is written is read back in order.
use campix.Base.{
  ℕ, zero, ◌+◌, ◌-◌, ◌^◌, ◌≤◌, ◌<◌, min, ◌≡◌, refl, sym, ap, ◌∙◌, List, [], arith, length, take,
  drop, ◌++◌, ok, ◌>>=◌, length-replicate, length-append, length-tabulate, suc, ◌∷◌, Run,
}
use campix.Pipe.{Pipe, new_anonymous, read, write}
use campix.Pipe.Queue.{IsValid, contents, read-Reads}
use campix.Pipe.Queue.Write.{write-Writes}

-- A new pipe of fewer than 2^63 bytes is valid, holds nothing and has the size asked for.
pub new_anonymous-IsValid :
    (buf_size : ℕ)
    → buf_size < 2 ^ 63
    → IsValid (new_anonymous buf_size)
      × (contents (new_anonymous buf_size) ≡ [])
      × (length (new_anonymous buf_size).bytes ≡ buf_size)
unfolding new_anonymous
new_anonymous-IsValid buf_size h = (
  record {
    within = omega arith;
    read_inside = λ p. p;
    write_behind = λ p. omega arith;
    fits_usize = rw (length-replicate) h;
  },
  refl,
  length-replicate buf_size 0,
)

take_all : (n : ℕ) (xs : List ℕ) → length xs ≤ n → take n xs ≡ xs
take_all zero [] h = refl
take_all (suc n) [] h = refl
take_all zero (x ∷ xs) h = absurd (omega arith)
take_all (suc n) (x ∷ xs) h = ap (λ (t : List ℕ). x ∷ t) (take_all n xs (omega arith))

drop_all : (n : ℕ) (xs : List ℕ) → length xs ≤ n → drop n xs ≡ []
drop_all zero [] h = refl
drop_all (suc n) [] h = refl
drop_all zero (x ∷ xs) h = absurd (omega arith)
drop_all (suc n) (x ∷ xs) h = drop_all n xs (omega arith)

-- A write, and a read of as many bytes as the pipe then has: what is read, and what is left.
abbrev pub write_then_read : List ℕ → Pipe → Run (List ℕ × List ℕ)
write_then_read buf p =
    write buf p >>= λ w. read (p.data_len + w.0) w.1 >>= λ r. ok (r.0, contents r.1)

length-contents : (p : Pipe) → length (contents p) ≡ p.data_len
length-contents p = length-tabulate p.data_len _

-- Bytes written to a valid pipe that has room for them, and then read together with the bytes that
-- were there before, come out behind those, in order; the pipe is then empty.
pub write_then_read-eq :
    (buf : List ℕ) (p : Pipe)
    → IsValid p
    → p.data_len + length buf ≤ length p.bytes
    → write_then_read buf p ≡ ok (contents p ++ buf, [])
write_then_read-eq buf p v room =
    let w = write-Writes buf p v in
    let n_eq : min (length p.bytes - p.data_len) (length buf) ≡ length buf = omega arith in
    let n = p.data_len + length buf in
    let r = read-Reads n w.after w.valid in
    let queue : contents w.after ≡ contents p ++ buf =
      w.queue ∙ rw (n_eq, take_all (length buf) buf (omega arith)) refl in
    let size : w.after.data_len ≡ n =
      sym (length-contents w.after)
      ∙ ap length queue
      ∙ rw (length-append (contents p) buf, length-contents p) refl in
    let all : min w.after.data_len n ≡ length (contents w.after) =
      omega (arith, size, length-contents w.after) in
    rw (w.returns, n_eq, r.returns, r.rest, all)
      (rw
        (
          take_all (length (contents w.after)) (contents w.after) (omega arith),
          drop_all (length (contents w.after)) (contents w.after) (omega arith),
          queue,
        )
        refl)
