-- ===== src/Middleware/RequestId/Safe.antt =====
-- Which request ids reach the handlers, the logs and the audit entries.
use Prim.Native.Char.{Char}
use Prim.Native.String.{len}
use gb_516_hydropower_gate_d.Prelude.{
  ◌≤◌, ◌≡◌, ◌≢◌, refl, arith, eq_iff, String, true, false, ◌||◌, ◌==◌, nat_eq, string_eq, ltb, inl,
  inr, Bool-cases,
}
use gb_516_hydropower_gate_d.Text.{is_space, trim_space}
use gb_516_hydropower_gate_d.Text.Trim.{trim_solid, unspaced}
use gb_516_hydropower_gate_d.Middleware.RequestId.{is_id_rune, all_runes, normalize_request_id}

-- At most 64 letters, digits and signs of "._:-", and at least one.
pub record IsId (id : String) : Type 0 where
  pub not_empty : id ≢ ""
  pub short : len id ≤ 64
  pub runes : all_runes is_id_rune id ≡ true

id_rune_solid : (c : Char) → is_id_rune c ≡ true → is_space c ≡ false
unfolding is_id_rune is_space
id_rune_solid c h = ground (arith, h)

unspaced_of_runes : (s : String) → all_runes is_id_rune s ≡ true → unspaced s ≡ true
unfolding all_runes unspaced
unspaced_of_runes String.[] h = refl
unspaced_of_runes (String.◌∷◌ c s) h = ground (arith, h, id_rune_solid c, unspaced_of_runes s)

-- Whatever the client sends, a request id is of that form, if fresh ids are.
pub normalize_request_id-IsId :
    (fresh value : String) → IsId fresh → IsId (normalize_request_id fresh value)
unfolding normalize_request_id
normalize_request_id-IsId fresh value h =
    elim (Bool-cases (trim_space value == "" || ltb 64 (len (trim_space value)))) [
      | inl refused ↦ rw refused h
      | inr fine ↦ rw fine (elim (Bool-cases (all_runes is_id_rune (trim_space value))) [
        | inl good ↦ rw good (record {
          not_empty = ground (arith, fine, eq_iff (trim_space value) "");
          short = ground (arith, fine);
          runes = good;
        })
        | inr bad ↦ rw bad h
      ])
    ]

kept_id : (fresh id : String) → IsId id → normalize_request_id fresh id ≡ id
unfolding normalize_request_id
kept_id fresh id h =
    let same = trim_solid id (unspaced_of_runes id h.runes) in
    rw same (ground (arith, h.not_empty, h.short, h.runes, eq_iff id ""))

-- Whatever the client sends, a request id has 1 to 64 bytes, all of them letters, digits or signs of
-- "._:-", if the fresh ids are such texts; and an id that a client got is accepted as it is when the
-- client sends it again.
pub request_ids :
    (fresh later value : String)
    → IsId fresh
    → IsId (normalize_request_id fresh value)
      × (normalize_request_id later (normalize_request_id fresh value)
          ≡ normalize_request_id fresh value)
request_ids fresh later value h =
    let id = normalize_request_id-IsId fresh value h in
    (id, kept_id later (normalize_request_id fresh value) id)
