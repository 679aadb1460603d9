-- ===== src/Kernel/Work/Final.antt =====
-- Replay keeps works under their ids, and canceled works as they are.
use genesis.Prelude.{
  String, ◌≡◌, refl, sym, subst, ap, ◌∙◌, ◌⊎◌, inl, inr, Option, none, some, [], ◌∷◌, Bool-cases,
  Option-cases, str_eq, arith, eq_iff,
}
use genesis.Prelude.Text.{is_empty}
use genesis.Prelude.Dict.{get, put, get-put_self, get-put_ne}
use genesis.Prelude.Results.{ok, and_then, and_then_lem}
use genesis.Kernel.Types.{WorkStatus, WorkProjection, EventType, StoredEvent}
use genesis.Kernel.Ledger.{Ledger}
use genesis.Kernel.Work.{
  Works, named_work, merge_work_statuses, merge_work_projection, record_work, replay_work_typed,
  replay_work_event, replay_works,
}

-- A merge gives the current or the incoming work, and a canceled work stays.
merge_work_lem :
    (o : Option WorkProjection) (x m : WorkProjection)
    → merge_work_projection o x ≡ ok m
    → (m ≡ x) ⊎ (o ≡ some m)
unfolding merge_work_projection
merge_work_lem none x m h = inl (let same : x ≡ m = ground arith in sym same)
merge_work_lem (some a) x m h = by_status a.status x.status refl refl h
  where
    by_status :
        (s t : WorkStatus)
        → a.status ≡ s
        → x.status ≡ t
        → merge_work_statuses s t a x ≡ ok m
        → (m ≡ x) ⊎ (some a ≡ some m)
    by_status s t e f h = ground arith

merge_canceled :
    (a x m : WorkProjection)
    → a.status ≡ WorkStatus.canceled
    → merge_work_projection (some a) x ≡ ok m
    → m ≡ a
unfolding merge_work_projection
merge_canceled a x m e h =
    by_status x.status refl (ap (λ s. merge_work_statuses s x.status a x) (sym e) ∙ h)
  where
    by_status :
        (t : WorkStatus)
        → x.status ≡ t
        → merge_work_statuses WorkStatus.canceled t a x ≡ ok m
        → m ≡ a
    by_status t f h = ground arith

-- The works of a ledger are stored under their ids.
abbrev pub IsKeyedWorks : Works → Type 0
IsKeyedWorks w = (id : String) (a : WorkProjection) → get w id ≡ some a → a.work_id ≡ id

-- Every canceled work of `w` is in `w'` as it was.
abbrev KeepsCanceled : Works → Works → Type 0
KeepsCanceled w w' =
    (id : String) (a : WorkProjection)
    → get w id ≡ some a
    → a.status ≡ WorkStatus.canceled
    → get w' id ≡ some a

pub recorded_work :
    (ev : StoredEvent) (x : WorkProjection) (w w' : Works)
    → record_work ev x w ≡ ok w'
    → (it : WorkProjection) × (m : WorkProjection) × (merge_work_projection (get w it.work_id) it
        ≡ ok m)
      × (w' ≡ put w it.work_id m)
unfolding record_work
recorded_work ev x w w' h = elim (Bool-cases (is_empty (named_work ev x).work_id)) [
  | inl t ↦ ground arith
  | inr n ↦
      let it = named_work ev x in
      let rest : and_then (merge_work_projection (get w it.work_id) it)
            (λ merged. ok (put w it.work_id merged))
          ≡ ok w' =
        ground arith in
      let (m, f, g) = and_then_lem (merge_work_projection (get w it.work_id) it) _ w' rest in
      (it, m, f, ground arith)
]

work-IsKeyed :
    (ev : StoredEvent) (x : WorkProjection) (w w' : Works)
    → record_work ev x w ≡ ok w'
    → IsKeyedWorks w
    → IsKeyedWorks w'
work-IsKeyed ev x w w' h keyed id a e =
    let (it, m, f, g) = recorded_work ev x w w' h in
    elim (Bool-cases (str_eq it.work_id id)) [
      | inr n ↦ keyed id a (sym (get-put_ne w it.work_id id m n) ∙ ap (λ d. get d id) (sym g) ∙ e)
      | inl y ↦
          let same : it.work_id ≡ id = ground (arith, eq_iff it.work_id id) in
          let own : m.work_id ≡ it.work_id = elim (merge_work_lem (get w it.work_id) it m f) [
            | inl k ↦ ap (λ (z : WorkProjection). z.work_id) k
            | inr k ↦ keyed it.work_id m k
          ] in
          let at : get w' id ≡ some m =
            subst (λ i. get w' i ≡ some m) same
              (ap (λ d. get d it.work_id) g ∙ get-put_self w it.work_id m) in
          let read : m ≡ a = ground arith in
          ap (λ (z : WorkProjection). z.work_id) (sym read) ∙ own ∙ same
    ]

work-KeepsCanceled :
    (ev : StoredEvent) (x : WorkProjection) (w w' : Works)
    → record_work ev x w ≡ ok w'
    → KeepsCanceled w w'
work-KeepsCanceled ev x w w' h id a e canceled =
    let (it, m, f, g) = recorded_work ev x w w' h in
    elim (Bool-cases (str_eq it.work_id id)) [
      | inr n ↦ ap (λ d. get d id) g ∙ get-put_ne w it.work_id id m n ∙ e
      | inl y ↦
          let same : it.work_id ≡ id = ground (arith, eq_iff it.work_id id) in
          let kept : m ≡ a =
            merge_canceled a it m canceled
              (subst (λ o. merge_work_projection o it ≡ ok m) (ap (get w) same ∙ e) f) in
          subst (λ i. get w' i ≡ some a) same
            (ap (λ d. get d it.work_id) g ∙ get-put_self w it.work_id m ∙ ap some kept)
    ]

-- A reflexive and transitive relation that each recorded work keeps, is kept by replay.
module _ (P : Works → Works → Type 0) (P-refl : (c : Works) → P c c)
    (P-trans : (c d e : Works) → P c d → P d e → P c e)
    (step : (ev : StoredEvent) (x : WorkProjection) (c c' : Works)
      → record_work ev x c ≡ ok c'
      → P c c') where
  same-P : (c c' : Works) → c ≡ c' → P c c'
  same-P c c' e = subst (P c) e (P-refl c)

  typed-P :
      (t : EventType) (ev : StoredEvent) (x : WorkProjection) (c c' : Works)
      → replay_work_typed t ev x c ≡ ok c'
      → P c c'
  unfolding replay_work_typed
  typed-P EventType.work_submitted ev x c c' h = step ev x c c' h
  typed-P EventType.work_canceled ev x c c' h = step ev x c c' h
  typed-P _ ev x c c' h = same-P c c' (ground arith)

  event-P : (ev : StoredEvent) (c c' : Works) → replay_work_event ev c ≡ ok c' → P c c'
  unfolding replay_work_event
  event-P ev c c' h = elim (Option-cases ev.event_data.work) [
    | inl n ↦ same-P c c' (ground arith)
    | inr (x, e) ↦ typed-P ev.type ev x c c' (ground arith)
  ]

  replay_work_lem : (events : Ledger) (c c' : Works) → replay_works events c ≡ ok c' → P c c'
  unfolding replay_works
  replay_work_lem [] c c' h = same-P c c' (ground arith)
  replay_work_lem (ev ∷ events) c c' h =
      let (d, e, f) = and_then_lem (replay_work_event ev c) (replay_works events) c' h in
      P-trans c d c' (event-P ev c d e) (replay_work_lem events d c' f)

no_works-IsKeyed : IsKeyedWorks []
unfolding get
no_works-IsKeyed id a e = ground arith

pub replay_works-IsKeyed :
    (events : Ledger) (w : Works) → replay_works events [] ≡ ok w → IsKeyedWorks w
replay_works-IsKeyed events w h =
    replay_work_lem (λ c c'. IsKeyedWorks c → IsKeyedWorks c') (λ c x. x) (λ c d e f g x. g (f x))
      work-IsKeyed events [] w h no_works-IsKeyed

-- If the replay of further events succeeds, a canceled work is still there under its id exactly as
-- it was.
pub canceled_final :
    (events : Ledger) (w w' : Works) (id : String) (a : WorkProjection)
    → replay_works events w ≡ ok w'
    → get w id ≡ some a
    → a.status ≡ WorkStatus.canceled
    → get w' id ≡ some a
canceled_final events w w' id a h =
    replay_work_lem KeepsCanceled (λ c id a e s. e) (λ c d e p q id a f s. q id a (p id a f s) s)
      work-KeepsCanceled events w w' h id a
