-- ===== src/Plugin/AuditLog.antt =====
-- plugins/auditlog/auditlog.go: the entry that the audit log writes for an event, and its file.
use mathlib.Core.List.{append_assoc, append-nil}
use mydhcp.Common.{
  ℕ, ◌≡◌, refl, sym, ap, ◌∙◌, List, [], ◌∷◌, ◌++◌, ite, ◌=?◌, nat_eq, Option, some, none, Bool,
  true, false, if◌then◌else◌, Result, ok, err, Option-cases, Bool-cases, arith, inl, inr,
}
use mydhcp.Text.{dotted, colon_hex}
use mydhcp.Plugin.{EventType, LeaseEvent}

-- An empty address and an empty time are left out of the line.
pub record AuditEntry : Type 0 where
  pub event : EventType
  pub ip : List ℕ
  pub client_id : List ℕ
  pub client_hw : List ℕ
  pub subnet_name : List ℕ
  pub expires_at : List ℕ

-- OnLeaseEvent, with the formatting of a time.
unfoldable pub audit_entry : (ℕ → List ℕ) → LeaseEvent → AuditEntry
audit_entry format ev = record {
  event = ev.kind;
  ip = dotted ev.ip;
  client_id = ev.client_id;
  client_hw = colon_hex ev.client_hw;
  subnet_name = ev.subnet_name;
  expires_at = ite (ev.expires_at =? 0) [] (format ev.expires_at);
}

-- The file by its lines, and whether it is still open.
pub record AuditLog : Type 0 where
  pub lines : List (List ℕ)
  pub is_open : Bool

pub data AuditError : Type 0 where
  cannot_open cannot_marshal write_failed file_closed : AuditError

-- New: the lines that the file has stay. The file's lines are `none` where it cannot be opened.
unfoldable pub new_audit_log : Option (List (List ℕ)) → Result AuditError AuditLog
new_audit_log none = err cannot_open
new_audit_log (some lines) = ok (record { lines = lines; is_open = true })

-- The writing of a line, which the file system takes or not.
unfoldable pub write_line : Bool → List ℕ → AuditLog → AuditLog × Result AuditError (Unit {0})
write_line takes line a =
    if a.is_open
    then (if takes
        then (record a { lines = a.lines ++ line ∷ [] }, ok tt)
        else (a, err write_failed))
    else (a, err file_closed)

-- OnLeaseEvent, with the encoding of an entry and the formatting of a time.
unfoldable pub on_lease_event :
    (AuditEntry → Option (List ℕ))
    → (ℕ → List ℕ)
    → Bool
    → LeaseEvent
    → AuditLog
    → AuditLog × Result AuditError (Unit {0})
unfolding audit_entry write_line
on_lease_event encode format takes ev a = elim (encode (audit_entry format ev)) [
  | none ↦ (a, err cannot_marshal)
  | some line ↦ write_line takes line a
]

-- OnShutdown; a file is closed once.
unfoldable pub on_shutdown : AuditLog → AuditLog × Result AuditError (Unit {0})
on_shutdown a = if a.is_open then (record a { is_open = false }, ok tt) else (a, err file_closed)

-- The goroutine of an event runs, with whether the file system takes the line, or the log is shut
-- down.
pub data LogStep : Type 0 where
  logs : LeaseEvent → Bool → LogStep
  closes : LogStep

module _ (encode : AuditEntry → Option (List ℕ)) (format : ℕ → List ℕ) where
  abbrev pub log_step : AuditLog → LogStep → AuditLog
  log_step a (logs ev takes) = (on_lease_event encode format takes ev a).0
  log_step a closes = (on_shutdown a).0

  abbrev pub log_steps : AuditLog → List LogStep → AuditLog
  log_steps a [] = a
  log_steps a (s ∷ steps) = log_steps (log_step a s) steps

  abbrev pub line_of : LeaseEvent → List (List ℕ)
  line_of ev = elim (encode (audit_entry format ev)) [ none ↦ [] | some line ↦ line ∷ [] ]

  -- The lines of the events whose goroutines run before the log is shut down.
  abbrev pub written_lines : List LogStep → List (List ℕ)
  written_lines [] = []
  written_lines (closes ∷ steps) = []
  written_lines (logs ev false ∷ steps) = written_lines steps
  written_lines (logs ev true ∷ steps) = line_of ev ++ written_lines steps

  log_closed :
      (a : AuditLog) (ev : LeaseEvent) (takes : Bool)
      → a.is_open ≡ false
      → (on_lease_event encode format takes ev a).0 ≡ a
  unfolding on_lease_event write_line
  log_closed a ev takes shut = elim (Option-cases (encode (audit_entry format ev))) [
    | inl e ↦ ground (arith, e)
    | inr (line, e) ↦ ground (arith, e, shut)
  ]

  log_refused : (a : AuditLog) (ev : LeaseEvent) → (on_lease_event encode format false ev a).0 ≡ a
  unfolding on_lease_event write_line
  log_refused a ev = elim (Option-cases (encode (audit_entry format ev))) [
    | inl e ↦ ground (arith, e)
    | inr (line, e) ↦ elim (Bool-cases a.is_open) [
      | inl o ↦ ground (arith, e, o)
      | inr o ↦ ground (arith, e, o)
    ]
  ]

  log_taken :
      (lines : List (List ℕ)) (ev : LeaseEvent)
      → (on_lease_event encode format true ev (record { lines = lines; is_open = true })).0
        ≡ record { lines = lines ++ line_of ev; is_open = true }
  unfolding on_lease_event write_line
  log_taken lines ev = elim (Option-cases (encode (audit_entry format ev))) [
    | inl e ↦ ground (arith, e, append-nil lines)
    | inr (line, e) ↦ ground (arith, e)
  ]

  closed_keeps : (a : AuditLog) (steps : List LogStep) → a.is_open ≡ false → log_steps a steps ≡ a
  unfolding on_shutdown
  closed_keeps a [] shut = refl
  closed_keeps a (closes ∷ steps) shut =
      let same : (on_shutdown a).0 ≡ a = ground (arith, shut) in
      ap (λ x. log_steps x steps) same ∙ closed_keeps a steps shut
  closed_keeps a (logs ev takes ∷ steps) shut =
      ap (λ x. log_steps x steps) (log_closed a ev takes shut) ∙ closed_keeps a steps shut

  -- The file has the earlier lines and then the events' in the order in which their goroutines ran;
  -- one that runs behind the shutdown is lost.
  log_steps_lem :
      (lines : List (List ℕ)) (steps : List LogStep)
      → (log_steps (record { lines = lines; is_open = true }) steps).lines
        ≡ lines ++ written_lines steps
  unfolding on_shutdown
  log_steps_lem lines [] = sym (append-nil lines)
  log_steps_lem lines (closes ∷ steps) =
      ap (λ (a : AuditLog). a.lines)
        (closed_keeps (record { lines = lines; is_open = false }) steps refl)
      ∙ sym (append-nil lines)
  log_steps_lem lines (logs ev false ∷ steps) =
      ap (λ a. (log_steps a steps).lines)
        (log_refused (record { lines = lines; is_open = true }) ev)
      ∙ log_steps_lem lines steps
  log_steps_lem lines (logs ev true ∷ steps) =
      ap (λ a. (log_steps a steps).lines) (log_taken lines ev)
      ∙ log_steps_lem (lines ++ line_of ev) steps
      ∙ append_assoc lines (line_of ev) (written_lines steps)
