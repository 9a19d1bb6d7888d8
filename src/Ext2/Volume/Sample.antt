-- ===== src/Ext2/Volume/Sample.antt =====
-- An `Ext2Volume` in a file in memory, with a cache that keeps every block.
use campix.Base.{
  ℕ, ◌+◌, ◌-◌, ◌≤◌, ◌<◌, ◌≡◌, ◌⊎◌, inl, refl, sym, ap, ◌∙◌, true, false, Option, none, some, List,
  ltb, leb, ◌&&◌, ◌==◌, ==_refl, ne→==_false, if◌then◌else◌, length, get_or, replicate,
  length-replicate, tabulate, length-tabulate, tabulate_ext, take-drop-tabulate, arith,
}
use mathlib.Core.Option.{none-ne-some}
use campix.Vfs.Error.{done}
use campix.Ext2.Volume.{Volume}
use campix.Ext2.Volume.Blocks.{Device, IsWhole, LruCache}
use campix.Ext2.Volume.Coherent.{take-whole, IsCoherent, ext2_volume}

pub record Disk : Type 0 where
  pub place : ℕ
  pub content : ℕ → ℕ

abbrev pub overwritten : List ℕ → ℕ → (ℕ → ℕ) → ℕ → ℕ
overwritten buf place content pos =
    if leb place pos && ltb pos (place + length buf)
    then get_or buf (pos - place) 0
    else content pos

pub done-eq {ℓ} : {A : Type ℓ} {x y : A} → done x ≡ done y → x ≡ y
done-eq e = cc

pub tabulate-overwritten :
    (buf : List ℕ) (place : ℕ) (content : ℕ → ℕ)
    → tabulate (length buf) (λ j. overwritten buf place content (place + j)) ≡ buf
tabulate-overwritten buf place content =
    tabulate_ext (length buf) (λ j. overwritten buf place content (place + j))
      (λ j. get_or buf (0 + j) 0) (λ j l. here j l)
    ∙ sym (take-drop-tabulate 0 (length buf) buf 0 (omega arith))
    ∙ take-whole (length buf) buf refl
  where
    here :
        (j : ℕ) → j < length buf → overwritten buf place content (place + j) ≡ get_or buf (0 + j) 0
    here j l =
        let inside : (leb place (place + j) && ltb (place + j) (place + length buf)) ≡ true =
          ground (arith, l) in
        rw inside
          (ap (λ (i : ℕ). get_or buf i 0) (let e : place + j - place ≡ 0 + j = omega arith in e))

pub tabulate-apart :
    (buf : List ℕ) (place : ℕ) (content : ℕ → ℕ) (pos n : ℕ)
    → (pos + n ≤ place) ⊎ (place + length buf ≤ pos)
    → tabulate n (λ j. overwritten buf place content (pos + j))
      ≡ tabulate n (λ j. content (pos + j))
tabulate-apart buf place content pos n h = tabulate_ext n _ _ (λ j l. there j l)
  where
    there : (j : ℕ) → j < n → overwritten buf place content (pos + j) ≡ content (pos + j)
    there j l =
        let outside : (leb place (pos + j) && ltb (pos + j) (place + length buf)) ≡ false =
          ground (arith, l, h) in
        rw outside refl

abbrev pub disk : Device
disk = record {
  State = Disk;
  place = λ d. d.place;
  bytes = λ d pos n. tabulate n (λ j. d.content (pos + j));
  seek = λ pos d. (done pos, record d { place = pos });
  read = λ len d.
      (done (tabulate len (λ j. d.content (d.place + j))), record d { place = d.place + len });
  write = λ buf d. (
    done (length buf),
    record d { content = overwritten buf d.place d.content; place = d.place + length buf },
  );
  length-bytes = λ d pos n. length-tabulate n (λ j. d.content (pos + j));
  place-seek = λ pos n d e. refl;
  bytes-seek = λ to d pos n. refl;
  bytes-read = λ len d pos n. refl;
  read-bytes = λ len d got e l. sym (done-eq e);
  bytes-write_apart = λ buf d pos n h. tabulate-apart buf d.place d.content pos n h;
  bytes-write = λ buf d e. tabulate-overwritten buf d.place d.content;
}

pub disk-IsWhole : IsWhole disk
disk-IsWhole = record {
  whole_read = λ len d got e.
      ap (λ (xs : List ℕ). length xs) (sym (done-eq e))
      ∙ length-tabulate len (λ j. d.content (d.place + j));
  whole_write = λ buf d n e. sym (done-eq e);
}

abbrev pub keeps_all : LruCache
keeps_all = record {
  State = ℕ → Option (List ℕ);
  lookup = λ key c. c key;
  touch = λ key c. c;
  set = λ key value c other. if other == key then some value else c other;
  push = λ key value c other. if other == key then some value else c other;
  lookup-touch = λ key other c. refl;
  lookup-set = λ key old value c e. rw (==_refl key) refl;
  lookup-set_ne = λ key other value c ne. rw (ne→==_false other key ne) refl;
  lookup-push = λ key value c. rw (==_refl key) refl;
  lookup-push_ne = λ key other value c ne. inl (rw (ne→==_false other key ne) refl);
}

abbrev pub zeros : ℕ → List ℕ
zeros n = replicate n 0

-- The volume with blocks of this size, of which it has a hundred.
abbrev pub sample : ℕ → Volume
sample block_size =
    ext2_volume disk keeps_all zeros
      (record { block_size = block_size; block_count = 100; read_only = false })
      (λ n. length-replicate n 0) disk-IsWhole (omega arith)

abbrev pub blank : Disk × (ℕ → Option (List ℕ))
blank = (record { place = 0; content = λ pos. 0 }, λ key. none)

pub blank-IsCoherent :
    (block_size : ℕ)
    → IsCoherent disk keeps_all zeros
        (record { block_size = block_size; block_count = 100; read_only = false })
        blank
blank-IsCoherent block_size key cached k e = absurd (none-ne-some cached e)
