-- ===== src/Events/Window.antt =====
-- The bounded log of event_log.rs against the unbounded history of all events.
use mercury_cortex_core.Common.{
  append-nil, ℕ, ◌-◌, ◌+◌, ◌≤◌, ◌<◌, ◌≡◌, refl, sym, ap, ◌∙◌, List, [], ◌∷◌, ◌++◌, leb,
  if◌then◌else◌, length, drop, arith, length-append, take_last, drop-append, drop-drop, length-drop,
  Bool-cases, inl, inr, le_of_leb, lt_of_not_leb, append_assoc,
}
use mercury_cortex_core.Events.{
  new, EventLogEntry, EventLog, push, recent_entries, max_log_entries, pop_front,
}

-- Entries pushed one after another.
unfoldable pub pushes : List EventLogEntry → EventLog → EventLog
pushes [] log = log
pushes (e ∷ es) log = pushes es (push e.timestamp e.event_type e.details log)

pop_front-drop : (es : EventLog) → pop_front es ≡ drop 1 es
pop_front-drop [] = refl
pop_front-drop (_ ∷ es) = refl

length-window : (es : EventLog) → length (take_last max_log_entries es) ≤ max_log_entries
length-window es = omega (arith, length-drop (length es - max_log_entries) es)

-- The window of the last `c` elements, after one more.
window-append {ℓ} :
    {A : Type ℓ} (c : ℕ) (h : List A) (e : A)
    → 0 < c
    → (if leb c (length (take_last c h)) then drop 1 (take_last c h) else take_last c h) ++ e ∷ []
      ≡ take_last c (h ++ e ∷ [])
window-append c h e pos =
    let d = length h - c in
    let kept = length-drop d h in
    let longer = length-append h (e ∷ []) in
    elim (Bool-cases (leb c (length (take_last c h)))) [
      | inl full ↦
          let enough = le_of_leb c (length (take_last c h)) full in
          let next : length (h ++ e ∷ []) - c ≡ d + 1 = omega (arith, longer, kept) in
          rw full (
            ap (λ t. t ++ e ∷ []) (drop-drop 1 d h)
            ∙ sym (drop-append (d + 1) h (e ∷ []) (omega (arith, kept)))
            ∙ ap (λ n. drop n (h ++ e ∷ [])) (sym next))
      | inr space ↦
          let short = lt_of_not_leb c (length (take_last c h)) space in
          let next : length (h ++ e ∷ []) - c ≡ d = omega (arith, longer, kept) in
          rw space (
            sym (drop-append d h (e ∷ []) (omega (arith, kept)))
            ∙ ap (λ n. drop n (h ++ e ∷ [])) (sym next))
    ]

push-window :
    (e : EventLogEntry) (h : List EventLogEntry)
    → push e.timestamp e.event_type e.details (take_last max_log_entries h)
      ≡ take_last max_log_entries (h ++ e ∷ [])
unfolding push
push-window e h = rw pop_front-drop (window-append max_log_entries h e (omega arith))

pushes-window :
    (es h : List EventLogEntry)
    → pushes es (take_last max_log_entries h) ≡ take_last max_log_entries (h ++ es)
unfolding pushes
pushes-window [] h = ap (take_last max_log_entries) (sym (append-nil h))
pushes-window (e ∷ es) h =
    ap (pushes es) (push-window e h)
    ∙ pushes-window es (h ++ e ∷ [])
    ∙ ap (take_last max_log_entries) (append_assoc h (e ∷ []) es)

take_last-take_last {ℓ} :
    {A : Type ℓ} (n c : ℕ) (h : List A) → n ≤ c → take_last n (take_last c h) ≡ take_last n h
take_last-take_last n c h le =
    let kept = length-drop (length h - c) h in
    drop-drop (length (take_last c h) - n) (length h - c) h
    ∙ ap (λ k. drop k h) (omega (arith, kept))

-- After any events the log of a new engine holds the last thousand of them, oldest first, and
-- `recent_entries n` answers with the last `n` of all events where `n` is at most a thousand.
pub recent_entries-pushes :
    (es : List EventLogEntry) (n : ℕ)
    → n ≤ max_log_entries
    → (pushes es new ≡ take_last max_log_entries es)
      × (recent_entries n (pushes es new) ≡ take_last n es)
unfolding recent_entries
recent_entries-pushes es n le =
    let window = pushes-window es [] in
    (window, rw window (take_last-take_last n max_log_entries es le))
