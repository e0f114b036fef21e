-- ===== src/Repository/Paging/Contents.antt =====
-- What stands on a page.
use gb_516_hydropower_gate_d.Prelude.{
  ℕ, ◌-◌, ◌*◌, ◌≤◌, ◌<◌, ◌≡◌, ◌⊎◌, ◌↔◌, inl, inr, refl, subst, arith, Bool, true, false, ◌&&◌, ◌||◌,
  ◌==◌, ◌!=◌, nat_eq, string_eq, eq_iff, Bool-cases, Option, none, some, String, List, ℤ, pos, ◌≤ℤ◌,
  pos_part, min, length, count_if, ltb, ltb_ℤ, if◌then◌else◌,
}
use gb_516_hydropower_gate_d.Text.{trim_space, to_lower}
use gb_516_hydropower_gate_d.Text.Split.{prepend}
use gb_516_hydropower_gate_d.Failure.{Result, ok, err, ◌and_then◌}
use gb_516_hydropower_gate_d.Dto.{PageQuery}
use gb_516_hydropower_gate_d.Model.{AuditLog}
use gb_516_hydropower_gate_d.Orm.{scoped, from_answer}
use gb_516_hydropower_gate_d.Repository.Database.{Platform, Db}
use gb_516_hydropower_gate_d.Repository.Tables.{Aggregate, schema, audits, is_none}
use gb_516_hydropower_gate_d.Repository.Paging.{
  Page, normal_number, normal_size, offset_of, is_listed, is_searched, has_status, latest, list,
  newest, is_about, entity_history,
}
use gb_516_hydropower_gate_d.Repository.Paging.Bounds.{normal_size-bounded}
use gb_516_hydropower_gate_d.Repository.Paging.Slices.{from_answer-eq-ok, find_page-IsSlice}
use gb_516_hydropower_gate_d.Repository.Paging.Listing.{
  IsListing, listing, IsClamped, IsWrapped, normal_size-IsClamped, wrap-IsWrapped,
}

and_then-eq-ok :
    {A B : Type 0} (r : Result A) (f : A → Result B) {b : B}
    → (r and_then f) ≡ ok b
    → (a : A) × (r ≡ ok a) × (f a ≡ ok b)
and_then-eq-ok (ok a) f h = (a, refl, h)
and_then-eq-ok (err e) f h = absurd (ground arith)

ok_inj : {A : Type 0} {x y : A} → ok x ≡ ok y → x ≡ y
ok_inj h = ground arith

few : (limit : ℤ) (n : ℕ) {m : ℕ} → m ≡ min (pos_part limit) n → limit ≤ℤ pos 100 → m ≤ 100
few limit n e h = ground (arith, e, h)

-- x may stand before y: it was updated later, or at the same time and its key is not smaller.
abbrev pub IsLatest : {T : Type 0} → Aggregate T → T → T → Type 0
IsLatest a x y =
    ((a.base y).updated_at < (a.base x).updated_at)
    ⊎ (((a.base y).updated_at ≡ (a.base x).updated_at) × ((a.base y).id ≤ (a.base x).id))

latest_reads :
    (u v i j : ℕ) → (ltb v u || (u == v && ltb j i)) ≡ false → (u < v) ⊎ ((u ≡ v) × (i ≤ j))
latest_reads u v i j h = ground (arith, h)

live_iff : (o : Option ℕ) → (is_none o ≡ true) ↔ (o ≡ none)
live_iff none = (λ h. refl, λ h. refl)
live_iff (some t) = (λ h. absurd (ground (arith, h)), λ h. absurd (ground (arith, h)))

search_iff :
    (text : String) (b c : Bool)
    → ((if text != "" then b || c else true) ≡ true) ↔ ((text ≡ "") ⊎ (b ≡ true) ⊎ (c ≡ true))
search_iff text b c =
    (λ h. ground (arith, eq_iff text "", h), λ h. ground (arith, eq_iff text "", h))

status_iff :
    (text status : String)
    → ((if text != "" then status == text else true) ≡ true) ↔ ((text ≡ "") ⊎ (status ≡ text))
status_iff text status = (
  λ h. ground (arith, eq_iff text "", eq_iff status text, h),
  λ h. ground (arith, eq_iff text "", eq_iff status text, h),
)

three : (a b c : Bool) → ((a && (b && c)) ≡ true) ↔ ((a ≡ true) × (b ≡ true) × (c ≡ true))
three a b c =
    (λ h. (ground (arith, h), ground (arith, h), ground (arith, h)), λ h. ground (arith, h))

number_cases :
    (asked : ℤ)
    → (asked ≤ℤ pos 0) × (normal_number asked ≡ pos 1)
      ⊎ (pos 1 ≤ℤ asked) × (normal_number asked ≡ asked)
number_cases asked = elim (Bool-cases (ltb_ℤ asked (pos 1))) [
  | inl low ↦ inl (ground (arith, low), ground (arith, low))
  | inr fit ↦ inr (ground (arith, fit), ground (arith, fit))
]

module _ (p : Platform) {T : Type 0} (a : Aggregate T) where
  -- A live row that the search finds, in its code or its name, and that has the status; an empty text
  -- asks for nothing.
  pub record IsMatch (query : PageQuery) (row : T) : Type 0 where
    pub live : (a.base row).deleted_at ≡ none
    pub searched :
        (trim_space (to_lower p.unicode query.search) ≡ "")
        ⊎ (p.gorm.like
              (p.gorm.sql_lower (a.base row).code)
              (String.◌∷◌ "%" (prepend (trim_space (to_lower p.unicode query.search)) "%"))
            ≡ true)
        ⊎ (p.gorm.like
              (p.gorm.sql_lower (a.base row).name)
              (String.◌∷◌ "%" (prepend (trim_space (to_lower p.unicode query.search)) "%"))
            ≡ true)
    pub status : (trim_space query.status ≡ "") ⊎ ((a.base row).status ≡ trim_space query.status)

  matches :
      (query : PageQuery) (row : T)
      → (scoped (schema a) (is_listed p a query) row ≡ true) ↔ IsMatch query row
  unfolding is_searched
  matches query row =
      let text = trim_space (to_lower p.unicode query.search) in
      let search =
        search_iff text
          (p.gorm.like (p.gorm.sql_lower (a.base row).code) (String.◌∷◌ "%" (prepend text "%")))
          (p.gorm.like (p.gorm.sql_lower (a.base row).name) (String.◌∷◌ "%" (prepend text "%"))) in
      let live = live_iff (a.base row).deleted_at in
      let status = status_iff (trim_space query.status) (a.base row).status in
      let split =
        three (is_none (a.base row).deleted_at) (is_searched p a query.search row)
          (has_status p a query.status row) in
      (
        λ h.
            let (l, s, t) = split.0 h in
            record { live = live.0 l; searched = search.0 s; status = status.0 t },
        λ m. split.1 (live.1 m.live, search.1 m.searched, status.1 m.status),
      )

  abbrev made : PageQuery → List T → ℕ → Page T
  made query items total = record {
    items = items;
    total = total;
    page = normal_number query.page;
    page_size = normal_size query.page_size;
  }

  -- The page that answers a query: its number and its size, the offset that they come to, the rows on
  -- it and the number of all that match.
  pub record IsPage (query : PageQuery) (db : Db) (page : Page T) : Type 0 where
    pub number :
        (query.page ≤ℤ pos 0) × (page.page ≡ pos 1)
        ⊎ (pos 1 ≤ℤ query.page) × (page.page ≡ query.page)
    pub size : IsClamped query.page_size page.page_size
    pub offset : ℤ
    pub wrapped : IsWrapped ((pos_part page.page - 1) * pos_part page.page_size) offset
    pub test : T → Bool
    pub listed :
        IsListing test (IsMatch query) (IsLatest a) offset page.page_size (a.rows db) page.items
    pub total : page.total ≡ count_if test (a.rows db)

  -- A page of an aggregate is the one that was asked for, or the first, and has as many places as were
  -- asked for, 20 for none and 100 at most. Its total is the number of the rows of the table that are
  -- not deleted, have the search in their code or name and have the status; on it stand such rows only,
  -- the one updated last first and of two updated at one time the one with the larger key, and as many
  -- as are left behind the pages before, whose number of places wraps at 2 ^ 64.
  pub list-IsPage :
      (query : PageQuery) (db : Db) {page : Page T}
      → list p a query db ≡ ok page
      → IsPage query db page
  unfolding list offset_of
  list-IsPage query db {page} h =
      let size = normal_size query.page_size in
      let offset = offset_of (normal_number query.page) size in
      let (total, counted, h₁) =
        and_then-eq-ok (from_answer (p.gorm.count T (schema a) (is_listed p a query) (a.rows db)))
          (λ total.
            from_answer (
              p.gorm.find_page T (schema a) (is_listed p a query) (latest p a) offset size
                (a.rows db))
            and_then λ items. ok (made query items total))
          h in
      let (items, found, same) =
        and_then-eq-ok
          (from_answer (
            p.gorm.find_page T (schema a) (is_listed p a query) (latest p a) offset size
              (a.rows db)))
          (λ items. ok (made query items total)) h₁ in
      let slice =
        find_page-IsSlice p (schema a) (is_listed p a query) (latest p a) offset size (a.rows db)
          (normal_size-bounded query.page_size).0 found in
      subst (IsPage query db) (ok_inj same) (record {
        number = number_cases query.page;
        size = normal_size-IsClamped query.page_size;
        offset = offset;
        wrapped = wrap-IsWrapped ((pos_part (normal_number query.page) - 1) * pos_part size);
        test = scoped (schema a) (is_listed p a query);
        listed =
            listing (schema a) (is_listed p a query) (latest p a) offset size (a.rows db) items
              (IsMatch query) (IsLatest a) (matches query)
              (λ x y h.
                latest_reads (a.base y).updated_at (a.base x).updated_at (a.base y).id (a.base x).id
                  h)
              slice;
        total =
            p.gorm.count_counts T (schema a) (is_listed p a query) (a.rows db) total
              (from_answer-eq-ok _ counted);
      })

-- An entry about an entity, and one that was not made later than another.
abbrev pub IsAbout : String → ℕ → AuditLog → Type 0
IsAbout entity_type entity_id row = (row.entity_type ≡ entity_type) × (row.entity_id ≡ entity_id)

abbrev pub IsNewest : AuditLog → AuditLog → Type 0
IsNewest x y = y.created_at ≤ x.created_at

abbrev pub IsHistoryOf : String → ℕ → ℤ → Db → List AuditLog → Type 0
IsHistoryOf entity_type entity_id limit db found =
    (test : AuditLog → Bool) × IsListing test (IsAbout entity_type entity_id) IsNewest (pos 0) limit
      db.audits found

about_iff : (t u : String) (i j : ℕ) → ((true && (t == u && i == j)) ≡ true) ↔ ((t ≡ u) × (i ≡ j))
about_iff t u i j =
    (λ h. (ground (arith, eq_iff t u, h), ground (arith, h)), λ h. ground (arith, eq_iff t u, h))

newest_reads : (u v : ℕ) → (ltb v u || (u == v && ltb 0 0)) ≡ false → u ≤ v
newest_reads u v h = ground (arith, h)

module _ (p : Platform) where
  -- The history of an entity holds entries about that type and key only, newest first, and as many as
  -- there are, up to the limit that was asked for, 20 for none and 100 at most.
  pub entity_history-IsHistoryOf :
      (entity_type : String) (entity_id : ℕ) (limit : ℤ) (db : Db) {found : List AuditLog}
      → entity_history p entity_type entity_id limit db ≡ ok found
      → (size : ℤ) × IsClamped limit size
        × IsHistoryOf entity_type entity_id size db found
        × (length found ≤ 100)
  unfolding entity_history
  entity_history-IsHistoryOf entity_type entity_id limit db {found} h =
      let bounds = normal_size-bounded limit in
      let slice =
        find_page-IsSlice p audits (is_about p entity_type entity_id) (newest p) (pos 0)
          (normal_size limit) db.audits bounds.0 h in
      (
        normal_size limit,
        normal_size-IsClamped limit,
        (
          scoped audits (is_about p entity_type entity_id),
          listing audits (is_about p entity_type entity_id) (newest p) (pos 0) (normal_size limit)
              db.audits found (IsAbout entity_type entity_id) IsNewest
              (λ row. about_iff row.entity_type entity_type row.entity_id entity_id)
              (λ x y h. newest_reads y.created_at x.created_at h) slice,
        ),
        few (normal_size limit) _ slice.count bounds.1,
      )
