-- ===== src/Attachments/Budget.antt =====
-- `AttachmentContentBudget` and `attachment_size_bucket` of app/domain/attachment_policy.py. The
-- size that a caller names may be negative.
use enterprise_communication.Prelude.{
  ℕ, ◌+◌, ◌-◌, ◌*◌, ◌≤◌, ◌≡◌, ◌∙◌, List, [], ◌∷◌, ltb, leb, if◌then◌else◌, arith, Bool-cases, inl,
  inr,
}
use enterprise_communication.Errors.{
  Result, ok, err, attachment_content_invalid, attachment_exceeds_limit,
}
use enterprise_communication.Attachments.Policy.{max_attachment_content_bytes}

-- `negsuc n` is -(n + 1).
pub data ℤ : Type 0 where
  pos : ℕ → ℤ
  negsuc : ℕ → ℤ

pub record AttachmentContentBudget : Type 0 where
  pub limit_bytes : ℕ
  pub consumed_bytes : ℕ

-- `max(limit - consumed, 0)`
unfoldable pub remaining_bytes : AttachmentContentBudget → ℕ
remaining_bytes budget = budget.limit_bytes - budget.consumed_bytes

unfoldable pub consume : ℤ → AttachmentContentBudget → Result AttachmentContentBudget
consume (negsuc n) budget = err attachment_content_invalid
consume (pos size) budget =
    if ltb budget.limit_bytes (budget.consumed_bytes + size)
    then err attachment_exceeds_limit
    else ok (record budget { consumed_bytes = budget.consumed_bytes + size })

pub data SizeBucket : Type 0 where
  empty le_64kib le_512kib le_1mib le_5mib gt_5mib : SizeBucket

unfoldable pub attachment_size_bucket : ℤ → SizeBucket
attachment_size_bucket (negsuc n) = empty
attachment_size_bucket (pos size) =
    if leb size 0
    then empty
    else if leb size (64 * 1024)
    then le_64kib
    else if leb size (512 * 1024)
    then le_512kib
    else if leb size (1024 * 1024)
    then le_1mib
    else if leb size max_attachment_content_bytes
    then le_5mib
    else gt_5mib

-- The budget after a request that may have been refused, and the bytes that it was granted
abbrev pub after :
    ℤ → AttachmentContentBudget → Result AttachmentContentBudget → AttachmentContentBudget × ℕ
after (pos size) budget (ok next) = (next, size)
after _ budget _ = (budget, 0)

-- The same for a sequence of requests
pub request_all : List ℤ → AttachmentContentBudget → AttachmentContentBudget × ℕ
request_all [] budget = (budget, 0)
request_all (size ∷ sizes) budget =
    let (next, granted) = after size budget (consume size budget) in
    let (final, rest) = request_all sizes next in (final, granted + rest)

-- What a budget accounts for
pub record Accounts (before after : AttachmentContentBudget) (granted : ℕ) : Type 0 where
  pub limit : after.limit_bytes ≡ before.limit_bytes
  pub consumed : after.consumed_bytes ≡ before.consumed_bytes + granted
  pub within : after.consumed_bytes ≤ after.limit_bytes
  pub remaining : remaining_bytes after + after.consumed_bytes ≡ after.limit_bytes

after-Accounts :
    (size : ℤ) (budget : AttachmentContentBudget)
    → budget.consumed_bytes ≤ budget.limit_bytes
    → let (next, granted) = after size budget (consume size budget) in Accounts budget next granted
unfolding consume remaining_bytes
after-Accounts (negsuc n) budget h = ground arith
after-Accounts (pos size) budget h =
    elim (Bool-cases (ltb budget.limit_bytes (budget.consumed_bytes + size))) [
      | inl over ↦ rw over (ground arith)
      | inr fits ↦ rw fits (ground arith)
    ]

-- After any sequence of requests to a budget that is not overdrawn, the limit is the same, what is
-- consumed has grown by what was granted and is within the limit, and the remaining bytes make up
-- the rest.
pub request_all-Accounts :
    (sizes : List ℤ) (budget : AttachmentContentBudget)
    → budget.consumed_bytes ≤ budget.limit_bytes
    → let (final, granted) = request_all sizes budget in Accounts budget final granted
unfolding request_all remaining_bytes
request_all-Accounts [] budget h = ground arith
request_all-Accounts (size ∷ sizes) budget h =
    let here = after-Accounts size budget h in
    let later =
      request_all-Accounts sizes (after size budget (consume size budget)).0 here.within in
    record {
      limit = later.limit ∙ here.limit;
      consumed = omega (arith, later.consumed, here.consumed);
      within = later.within;
      remaining = later.remaining;
    }
