-- ===== src/Ext2/Inode/Laws.antt =====
-- That an inode survives the way to the disk and back, and that a size that is stored is read.
use campix.Base.{
  ℕ, ◌*◌, ◌/◌, ◌%◌, ◌^◌, ◌<◌, ◌≡◌, ◌↔◌, refl, sym, ap, ◌∙◌, Bool, true, false, ◌&&◌, Option, none,
  some, bit_and, bit_or, if◌then◌else◌, arith,
}
use campix.Base.Options.{◌>>=◌}
use campix.Base.Words.{bit_or-append}
use campix.Ext2.Inode.Masks.{
  bit_or-masks, type_bits-type_of_bits, type_of_bits-type_bits, type_part, permission_part,
}
use mathlib.Core.Option.{some-injective, none-ne-some}
use campix.Ext2.Inode.{
  RawInode, InodeType, type_bits, is_file, type_of_bits, Inode, with_type, from_raw, get_raw,
  get_size, set_size,
}

with_raw_type : RawInode → ℕ → RawInode
with_raw_type raw n = record raw { type_and_permissions = n }

get_raw-with_type :
    (t : InodeType) (raw : RawInode) (i : ℕ) (parent : Option ℕ)
    → raw.type_and_permissions < 2 ^ 16
    → type_bits t ≡ bit_and raw.type_and_permissions 0xF000
    → get_raw (with_type t raw i parent) ≡ raw
unfolding get_raw with_type with_raw_type
get_raw-with_type t raw i parent h e = ap (with_raw_type raw) (
    ap (λ (k : ℕ). bit_or k (bit_and raw.type_and_permissions 0x0FFF)) e
    ∙ bit_or-masks raw.type_and_permissions h)

get_raw-from_raw :
    (raw : RawInode) (i : ℕ) (parent : Option ℕ) (n : Inode)
    → raw.type_and_permissions < 2 ^ 16
    → from_raw raw i parent ≡ some n
    → get_raw n ≡ raw
unfolding from_raw
get_raw-from_raw raw i parent n h e = go (type_of_bits bits) refl e
  where
    bits : ℕ
    bits = bit_and raw.type_and_permissions 0xF000

    go :
        (o : Option InodeType)
        → type_of_bits (bit_and raw.type_and_permissions 0xF000) ≡ o
        → (o >>= (λ t. some (with_type t raw i parent))) ≡ some n
        → get_raw n ≡ raw
    go none e found = absurd (none-ne-some n found)
    go (some t) e found =
        ap get_raw (sym (some-injective (with_type t raw i parent) n found))
        ∙ get_raw-with_type t raw i parent h (type_bits-type_of_bits _ t e)

with_permissions : Inode → ℕ → Inode
with_permissions n p = record n { permissions = p }

pub from_raw-get_raw :
    (n : Inode) → n.permissions < 2 ^ 12 → from_raw (get_raw n) n.inode_i n.parent_inode ≡ some n
unfolding from_raw get_raw with_type with_permissions
from_raw-get_raw n h =
    ap
      (λ (k : ℕ). type_of_bits k >>= (λ t. some (with_type t (get_raw n) n.inode_i n.parent_inode)))
      (type_part n.inode_type n.permissions h)
    ∙ ap
        (λ (o : Option InodeType).
          o >>= (λ t. some (with_type t (get_raw n) n.inode_i n.parent_inode)))
        (type_of_bits-type_bits n.inode_type)
    ∙ ap (λ (k : ℕ). some (with_permissions n k)) (permission_part n.inode_type n.permissions h)

-- Reading the disk's form of an inode gives an inode just when writing that inode gives the disk's
-- form, where the raw type and permissions have 16 bits and the permissions 12.
pub from_raw_iff :
    (raw : RawInode) (n : Inode)
    → raw.type_and_permissions < 2 ^ 16
    → n.permissions < 2 ^ 12
    → (from_raw raw n.inode_i n.parent_inode ≡ some n) ↔ (get_raw n ≡ raw)
from_raw_iff raw n h k = (
  get_raw-from_raw raw n.inode_i n.parent_inode n h,
  λ e. ap (λ r. from_raw r n.inode_i n.parent_inode) (sym e) ∙ from_raw-get_raw n k,
)

-- The size that is read after a size is stored: all of it in a regular file of a volume with large
-- files, its lowest 32 bits anywhere else.
pub get_size-set_size :
    (large : Bool) (size : ℕ) (n : Inode)
    → size < 2 ^ 64
    → get_size large (set_size large size n)
      ≡ (if is_file n.inode_type && large then size else size % 2 ^ 32)
unfolding get_size set_size
get_size-set_size large size n h = go (is_file n.inode_type && large)
  where
    both : bit_or (size / 2 ^ 32 % 2 ^ 32 * 2 ^ 32 % 2 ^ 64) (size % 2 ^ 32) ≡ size
    both =
        let e : size / 2 ^ 32 % 2 ^ 32 * 2 ^ 32 % 2 ^ 64 ≡ 2 ^ 32 * (size / 2 ^ 32) = omega arith in
        ap (λ (k : ℕ). bit_or k (size % 2 ^ 32)) e
        ∙ bit_or-append 32 (size % 2 ^ 32) (size / 2 ^ 32) (omega arith)
        ∙ omega arith

    go :
        (b : Bool)
        → (if b
            then bit_or
                ((if b then size / 2 ^ 32 % 2 ^ 32 else n.size_hi_or_dir_acl) * 2 ^ 32 % 2 ^ 64)
                (size % 2 ^ 32)
            else size % 2 ^ 32)
          ≡ (if b then size else size % 2 ^ 32)
    go true = both
    go false = refl
