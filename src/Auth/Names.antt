-- ===== src/Auth/Names.antt =====
-- Which texts `TenantId::new` of crates/qaas-core/src/auth.rs takes.
use queue_as_a_service.Base.{ℕ, ◌≤◌, ◌≡◌, ◌≢◌, arith, true, [], ◌∷◌, some, All, length}
use queue_as_a_service.Types.{Text}
use queue_as_a_service.Auth.{
  TenantId, is_name_char, all_name_chars, new_tenant_id, max_tenant_id_len,
}

-- Neither the NUL byte, nor `.`, nor `/`, nor `\`.
abbrev pub IsPlain : ℕ → Type 0
IsPlain c = (c ≢ 0) × (c ≢ 46) × (c ≢ 47) × (c ≢ 92)

pub is_name_char-IsPlain : (c : ℕ) → is_name_char c ≡ true → IsPlain c
unfolding is_name_char
is_name_char-IsPlain c h = (ground arith, ground arith, ground arith, ground arith)

pub all_name_chars-IsPlain : (cs : Text) → all_name_chars cs ≡ true → All IsPlain cs
unfolding all_name_chars
all_name_chars-IsPlain [] h = tt
all_name_chars-IsPlain (c ∷ cs) h =
    (is_name_char-IsPlain c (ground arith), all_name_chars-IsPlain cs (ground arith))

-- A text that becomes a tenant id is kept as it is, has between 1 and 128 bytes, and none of them is a
-- NUL, a dot, a slash or a backslash: as part of a path it names a directory below, never another.
pub new_tenant_id-IsPlain :
    (value : Text) (tenant : TenantId)
    → new_tenant_id value ≡ some tenant
    → (tenant.text ≡ value) × (1 ≤ length value) × (length value ≤ 128) × All IsPlain value
unfolding new_tenant_id max_tenant_id_len
new_tenant_id-IsPlain [] tenant h = absurd (ground arith)
new_tenant_id-IsPlain (c ∷ cs) tenant h =
    (ground arith, omega arith, ground arith, all_name_chars-IsPlain (c ∷ cs) (ground arith))
