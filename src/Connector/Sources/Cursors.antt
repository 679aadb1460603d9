-- ===== src/Connector/Sources/Cursors.antt =====
-- A saved cursor is the one that is read.
use genesis.Prelude.{
  String, ◌≡◌, sym, ap, subst, ◌∙◌, true, false, ◌||◌, inl, inr, none, some, Bool-cases, arith,
}
use genesis.Prelude.Text.{is_empty, trim}
use genesis.Prelude.Dict.{get, get-put_self}
use genesis.Prelude.Results.{ok, Result-cases}
use genesis.Connector.Types.{Time}
use genesis.Connector.Store.{Io, io_ok}
use genesis.Connector.Sources.Types.{SourceCursor, SourceStore}
use genesis.Connector.Sources.Normalize.{or_now, normalize_source_cursor, source_cursor_key}
use genesis.Connector.Sources.Store.{
  Saved, save_source_cursor, save_normalized, change_sources, put_cursor, get_source_cursor,
}

normalized_ids :
    (now : Time) (c c' : SourceCursor)
    → normalize_source_cursor now c ≡ ok c'
    → (is_empty (trim c.source_id) || is_empty (trim c.cursor_kind) ≡ false)
      × (c'.source_id ≡ trim c.source_id)
      × (c'.cursor_kind ≡ trim c.cursor_kind)
unfolding normalize_source_cursor
normalized_ids now c c' h =
    elim (Bool-cases (is_empty (trim c.source_id) || is_empty (trim c.cursor_kind))) [
      | inl e ↦ ground arith
      | inr e ↦ elim (Bool-cases (is_empty (trim c.cursor_value))) [
        | inl f ↦ ground arith
        | inr f ↦
            let it : record c {
              source_id = trim c.source_id;
              cursor_kind = trim c.cursor_kind;
              cursor_value = trim c.cursor_value;
              updated_at = or_now now c.updated_at;
            }
                ≡ c' =
              ground arith in
            (
              e,
              ap (λ (d : SourceCursor). d.source_id) (sym it),
              ap (λ (d : SourceCursor). d.cursor_kind) (sym it),
            )
      ]
    ]

changed :
    (io : Io) (f : SourceStore → SourceStore) (s : SourceStore)
    → (change_sources io f s).1 ≡ none
    → (change_sources io f s).2 ≡ f s
unfolding change_sources
changed io f s h = ground arith

read_known :
    (id kind : String) (s : SourceStore) (c : SourceCursor)
    → is_empty (trim id) || is_empty (trim kind) ≡ false
    → get s.cursors (source_cursor_key (trim id) (trim kind)) ≡ some c
    → get_source_cursor io_ok id kind s ≡ ((c, true), none, s)
unfolding get_source_cursor
read_known id kind s c n h = ground arith

-- After a cursor was saved without an error, a read of the same source and kind that meets no I/O
-- error gives the cursor in its normalised form.
pub cursor_reread :
    (io : Io) (now : Time) (cursor : SourceCursor) (s : SourceStore)
    → (save_source_cursor io now cursor s).1 ≡ none
    → let t = (save_source_cursor io now cursor s).2 in
      (saved : SourceCursor) × (normalize_source_cursor now cursor ≡ ok saved)
      × (get_source_cursor io_ok cursor.source_id cursor.cursor_kind t ≡ ((saved, true), none, t))
unfolding save_source_cursor save_normalized put_cursor
cursor_reread io now cursor s h = elim (Result-cases (normalize_source_cursor now cursor)) [
  | inl (e, f) ↦ ground arith
  | inr (saved, f) ↦
      let (named, same, kind) = normalized_ids now cursor saved f in
      let t = (save_source_cursor io now cursor s).2 in
      let at : save_source_cursor io now cursor s ≡ change_sources io (put_cursor saved) s =
        ap (λ r. save_normalized io r put_cursor s) f in
      let done : (change_sources io (put_cursor saved) s).1 ≡ none =
        sym (ap (λ (p : Saved). p.1) at) ∙ h in
      let written : t ≡ put_cursor saved s =
        ap (λ (p : Saved). p.2) at ∙ changed io (put_cursor saved) s done in
      let key = source_cursor_key saved.source_id saved.cursor_kind in
      let keyed : key ≡ source_cursor_key (trim cursor.source_id) (trim cursor.cursor_kind) =
        ap (λ i. source_cursor_key i saved.cursor_kind) same
        ∙ ap (source_cursor_key (trim cursor.source_id)) kind in
      let there : get t.cursors key ≡ some saved =
        ap (λ (u : SourceStore). get u.cursors key) written ∙ get-put_self s.cursors key saved in
      (
        saved,
        f,
        read_known cursor.source_id cursor.cursor_kind t saved named
            (subst (λ k. get t.cursors k ≡ some saved) keyed there),
      )
]
