-- ===== src/Connector/Inbound/Event.antt =====
-- inbound_event.go, and the default session mapper: what is made of an external event.
use genesis.Prelude.{
  String, Bool, not, Option, none, some, List, [], ◌∷◌, ◌++◌, map, str_eq, if◌then◌else◌,
}
use genesis.Prelude.Text.{is_empty, append, join, trim, string_lt}
use genesis.Prelude.Results.{Result, err, ok}
use genesis.Connector.Types.{ExternalResourceRef}
use genesis.Connector.Ids.{Host, stable_opaque_id, sanitized_thread_ref}
use genesis.Connector.Inbound.Types.{
  ExternalRef, ExternalEvent, RequestContext, ApplicationSessionMapping,
  source_validation_unchecked,
}

-- The cases of a `switch` without a tag: the first that holds gives the error.
abbrev pub first_case : List (Bool × String) → Option String
first_case [] = none
first_case ((holds, message) ∷ rest) = if holds then some message else first_case rest

-- ExternalEvent.Validate
unfoldable pub validate_event : ExternalEvent → Option String
validate_event e =
    let connector = trim e.connector in
    first_case (
      (is_empty connector, "external event missing connector")
      ∷ (is_empty (trim e.external_event_id), "external event missing external_event_id")
      ∷ (is_empty (trim e.event_type), "external event missing event_type")
      ∷ (is_empty (trim e.thread_ref.connector), "external event missing thread connector")
      ∷ (is_empty (trim e.thread_ref.kind), "external event missing thread kind")
      ∷ (is_empty (trim e.thread_ref.external_id), "external event missing thread external id")
      ∷ (is_empty (trim e.sender_ref.connector), "external event missing sender connector")
      ∷ (is_empty (trim e.sender_ref.kind), "external event missing sender kind")
      ∷ (is_empty (trim e.sender_ref.external_id), "external event missing sender external id")
      ∷ (is_empty (trim e.message_ref.connector), "external event missing message connector")
      ∷ (is_empty (trim e.message_ref.kind), "external event missing message kind")
      ∷ (is_empty (trim e.message_ref.external_id), "external event missing message external id")
      ∷ (is_empty (trim e.body), "external event missing body")
      ∷ (
        not (str_eq (trim e.thread_ref.connector) connector),
        "external event thread connector mismatch",
      )
      ∷ (
        not (str_eq (trim e.sender_ref.connector) connector),
        "external event sender connector mismatch",
      )
      ∷ (
        not (str_eq (trim e.message_ref.connector) connector),
        "external event message connector mismatch",
      )
      ∷ [])

-- The parts of an event that its ids are made of.
abbrev pub event_parts : ExternalEvent → List String
event_parts e = trim e.connector ∷ trim e.external_event_id ∷ []

-- ExternalEvent.DedupeKey
unfoldable pub dedupe_key : Host → ExternalEvent → String
dedupe_key h e = stable_opaque_id h "inbound" (event_parts e)

-- sanitizedExternalRef
unfoldable pub sanitized_external_ref : ExternalRef → ExternalRef
sanitized_external_ref ref = record {
  connector = trim ref.connector;
  kind = trim ref.kind;
  external_id = trim ref.external_id;
  display = trim ref.display;
  metadata = [];
}

-- ExternalEvent.RequestContext
unfoldable pub request_context : Host → ExternalEvent → ApplicationSessionMapping → RequestContext
request_context h e mapping = record {
  request_id = stable_opaque_id h "req" (event_parts e);
  dedupe_key = dedupe_key h e;
  connector = trim e.connector;
  event_type = trim e.event_type;
  thread_ref = sanitized_thread_ref e.thread_ref;
  sender_ref = sanitized_external_ref e.sender_ref;
  message_ref = sanitized_external_ref e.message_ref;
  resource_refs = e.resource_refs;
  source_validation =
      if is_empty (trim e.source_validation)
      then source_validation_unchecked
      else trim e.source_validation;
  application_session_id = mapping.application_session_id;
  kernel_session_id = mapping.kernel_session_id;
  kernel_idempotency_key = stable_opaque_id h "turn" (event_parts e);
  body = trim e.body;
  received_at = e.received_at;
}

-- opaqueExternalRefID, of a connector, a kind and an id
unfoldable pub opaque_external_ref_id : Host → String → String → String → String → String
opaque_external_ref_id h prefix connector kind external_id =
    stable_opaque_id h prefix (trim connector ∷ trim kind ∷ trim external_id ∷ [])

abbrev insert_string : String → List String → List String
insert_string x [] = x ∷ []
insert_string x (y ∷ ys) =
    let rest = insert_string x ys in if string_lt y x then y ∷ rest else x ∷ y ∷ ys

-- sort.Strings
abbrev sort_strings : List String → List String
sort_strings [] = []
sort_strings (x ∷ xs) = insert_string x (sort_strings xs)

-- A line that is left out where the text is blank.
abbrev display_line : String → String → List String
display_line label display =
    if is_empty (trim display) then [] else append label (trim display) ∷ []

abbrev resource_lines : Host → List ExternalResourceRef → List String
resource_lines h [] = []
resource_lines h (r ∷ rs) =
    append "resource_refs: " (
      join "," (
        sort_strings (
          map
            (λ (ref : ExternalResourceRef).
              opaque_external_ref_id h "resource" ref.connector ref.kind ref.external_id)
            (r ∷ rs))))
    ∷ []

-- FormatRequestContextForTurn
unfoldable pub format_request_context_for_turn : Host → RequestContext → String
format_request_context_for_turn h ctx =
    let thread = ctx.thread_ref in
    let message = ctx.message_ref in
    let sender = ctx.sender_ref in
    join "\n" (
      "External application event"
      ∷ append "connector: " (trim ctx.connector)
      ∷ append "event_type: " (trim ctx.event_type)
      ∷ append "request_ref: " (trim ctx.request_id)
      ∷ append "thread_ref: "
          (opaque_external_ref_id h "thread" thread.connector thread.kind thread.external_id)
      ∷ append "thread_kind: " (trim thread.kind)
      ∷ append "message_ref: "
          (opaque_external_ref_id h "message" message.connector message.kind message.external_id)
      ∷ append "sender_ref: "
          (opaque_external_ref_id h "sender" sender.connector sender.kind sender.external_id)
      ∷ append "sender_kind: " (trim sender.kind)
      ∷ append "source_validation: " (trim ctx.source_validation)
      ∷ (display_line "thread_display: " thread.display
          ++ (display_line "sender_display: " sender.display
              ++ (resource_lines h ctx.resource_refs ++ ("" ∷ "text:" ∷ trim ctx.body ∷ [])))))

-- The parts of a thread that a session is made of.
abbrev thread_parts : ExternalEvent → List String
thread_parts e =
    trim e.connector
    ∷ trim e.thread_ref.connector
    ∷ trim e.thread_ref.kind
    ∷ trim e.thread_ref.external_id
    ∷ []

-- ApplicationSessionMapper.Map
abbrev pub ApplicationSessionMapper : Type 0
ApplicationSessionMapper = ExternalEvent → Result ApplicationSessionMapping

-- DefaultApplicationSessionMapper.Map
unfoldable pub default_application_session_mapper : Host → ApplicationSessionMapper
default_application_session_mapper h e = elim (validate_event e) [
  | some message ↦ err message
  | none ↦ ok (record {
    application_session_id = stable_opaque_id h "appsession" (thread_parts e);
    kernel_session_id = stable_opaque_id h "session" (thread_parts e);
  })
]
