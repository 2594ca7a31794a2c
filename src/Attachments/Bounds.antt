-- ===== src/Attachments/Bounds.antt =====
-- What an archive is bounded by once `_zip_member_inventory` of app/domain/attachment_policy.py has
-- accepted it.
use enterprise_communication.Prelude.{
  ℕ, ◌+◌, ◌*◌, ◌≤◌, ◌<◌, ◌≡◌, sym, ap, Bool, false, ◌&&◌, Option, none, some, List, [], ◌∷◌, ltb,
  if◌then◌else◌, length, All, arith, Bool-cases, inl, inr,
}
use enterprise_communication.Errors.{
  ok-eq, Error, ok, err, Result-cases, attachment_unsupported, attachment_exceeds_limit,
}
use enterprise_communication.Attachments.Model.{ZipInfo}
use enterprise_communication.Attachments.Archive.{
  ArchiveLimits, Inventory, add_member, add_members, zip_member_inventory, escapes, member_name,
  over_ratio, no_members, breaks_strict,
}

abbrev pub total_size : List ZipInfo → ℕ
total_size [] = 0
total_size (info ∷ infos) = info.file_size + total_size infos

-- A ratio, where there is one, bounds what a member unpacks to.
abbrev pub WithinRatio : Option ℕ → ZipInfo → Type 0
WithinRatio none info = Unit
WithinRatio (some ratio) info = 0 < info.compress_size → info.file_size ≤ info.compress_size * ratio

pub record IsBoundedMember (limits : ArchiveLimits) (info : ZipInfo) : Type 0 where
  pub size : info.file_size ≤ limits.max_single_part
  pub ratio : WithinRatio limits.max_compression_ratio info
  pub stays_inside : escapes (member_name info) ≡ false

within_ratio : (r : Option ℕ) (info : ZipInfo) → over_ratio r info ≡ false → WithinRatio r info
within_ratio none info h = tt
within_ratio (some ratio) info h = λ some_byte. ground arith

five :
    {A : Type 0} (e f : Error) (a b c d g : Bool) (x y : A)
    → (if a
        then err e
        else if b
        then err e
        else if c
        then err f
        else if d
        then err e
        else if g
        then err f
        else ok x)
      ≡ ok y
    → (a ≡ false) × (b ≡ false) × (c ≡ false) × (d ≡ false) × (g ≡ false) × (x ≡ y)
five e f a b c d g x y h = ground arith

not_over : (a b : ℕ) → ltb a b ≡ false → b ≤ a
not_over a b h = ground arith

add_member_bounds :
    (limits : ArchiveLimits) (info : ZipInfo) (so_far next : Inventory)
    → add_member limits info so_far ≡ ok next
    → IsBoundedMember limits info
      × (next.total_uncompressed ≡ so_far.total_uncompressed + info.file_size)
      × (next.total_uncompressed ≤ limits.max_uncompressed_total)
      × (next.names ≡ member_name info ∷ so_far.names)
unfolding add_member
add_member_bounds limits info so_far next h =
    let (strict, inside, part, ratio, total, same) =
      five attachment_unsupported attachment_exceeds_limit
        (limits.strict_xlsx && breaks_strict info so_far.names) (escapes (member_name info))
        (ltb limits.max_single_part info.file_size) (over_ratio limits.max_compression_ratio info)
        (ltb limits.max_uncompressed_total (so_far.total_uncompressed + info.file_size))
        (record {
          names = member_name info ∷ so_far.names;
          total_uncompressed = so_far.total_uncompressed + info.file_size;
        })
        next h in
    let sum : next.total_uncompressed ≡ so_far.total_uncompressed + info.file_size =
      sym (ap (λ (i : Inventory). i.total_uncompressed) same) in
    (
      record {
        size = not_over limits.max_single_part info.file_size part;
        ratio = within_ratio limits.max_compression_ratio info ratio;
        stays_inside = inside;
      },
      sum,
      omega (
        arith,
        sum,
        not_over limits.max_uncompressed_total (so_far.total_uncompressed + info.file_size) total,
      ),
      sym (ap (λ (i : Inventory). i.names) same),
    )

pub record IsBoundedArchive (limits : ArchiveLimits) (infos : List ZipInfo) : Type 0 where
  pub members : All (IsBoundedMember limits) infos
  pub total : total_size infos ≤ limits.max_uncompressed_total
  pub entries : length infos ≤ limits.max_entries

add_members_bounds :
    (limits : ArchiveLimits) (infos : List ZipInfo) (so_far final : Inventory)
    → add_members limits infos so_far ≡ ok final
    → All (IsBoundedMember limits) infos
      × (final.total_uncompressed ≡ so_far.total_uncompressed + total_size infos)
      × (so_far.total_uncompressed ≤ limits.max_uncompressed_total
          → final.total_uncompressed ≤ limits.max_uncompressed_total)
unfolding add_members
add_members_bounds limits [] so_far final h =
    let same : final.total_uncompressed ≡ so_far.total_uncompressed =
      ap (λ (i : Inventory). i.total_uncompressed) (sym (ok-eq so_far final h)) in
    (tt, omega (arith, same), λ small. omega (arith, same, small))
add_members_bounds limits (info ∷ infos) so_far final h =
    elim (Result-cases (add_member limits info so_far)) [
      | inl (next, added) ↦
          let here = add_member_bounds limits info so_far next added in
          let later = add_members_bounds limits infos next final (rw (added, add_members) at h) in
          ((here.0, later.0), omega (arith, here.1, later.1), λ small. later.2 here.2)
      | inr (e, failed) ↦ absurd (ground arith)
    ]

-- An archive whose inventory is taken has no more members than allowed, none too large, over the
-- ratio or with a name that leads out of it, and a total size within the limit; the inventory has
-- that total and the number of members.
pub zip_member_inventory-IsBoundedArchive :
    (limits : ArchiveLimits) (infos : List ZipInfo) (inventory : Inventory) (count : ℕ)
    → zip_member_inventory limits (some infos) ≡ ok (inventory, count)
    → IsBoundedArchive limits infos
      × (inventory.total_uncompressed ≡ total_size infos)
      × (count ≡ length infos)
unfolding zip_member_inventory
zip_member_inventory-IsBoundedArchive limits infos inventory count h =
    elim (Bool-cases (ltb limits.max_entries (length infos))) [
      | inl many ↦ absurd (ground arith)
      | inr few ↦ elim (Result-cases (add_members limits infos no_members)) [
        | inr (e, failed) ↦ absurd (ground arith)
        | inl (final, added) ↦
            let bounds = add_members_bounds limits infos no_members final added in
            let same : ◌≡◌ {A = Inventory × ℕ} (final, length infos) (inventory, count) =
              ground arith in
            let total : final.total_uncompressed ≡ inventory.total_uncompressed =
              ap (λ (p : Inventory × ℕ). p.0.total_uncompressed) same in
            (
              record {
                members = bounds.0;
                total = omega (arith, bounds);
                entries = not_over limits.max_entries (length infos) few;
              },
              omega (arith, bounds, total),
              sym (ap (λ (p : Inventory × ℕ). p.1) same),
            )
      ]
    ]
