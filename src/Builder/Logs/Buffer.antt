-- ===== src/Builder/Logs/Buffer.antt =====
-- A buffer of log entries against the log that it stands for: the entries in the order in which they
-- were appended.
use devion.Prelude.{
  append_nil, append_assoc, ℕ, ◌<◌, ◌≡◌, refl, ap, sym, ◌∙◌, ◌⊎◌, inl, inr, Bool, true, false, List,
  [], ◌∷◌, ◌++◌, leb, ◌||◌, not, length, length-append, is_nil, map, any, concat, arith, Bool-cases,
}
use devion.Builder.Logs.{
  PendingLog, stored, LogBuffer, flush, append, settle, Event, appends, flushes, elapses, settles,
  handle, handle_all,
}

-- The entries that the events append.
abbrev pub appended : List Event → List PendingLog
appended [] = []
appended (appends entry ∷ es) = entry ∷ appended es
appended (_ ∷ es) = appended es

abbrev pub is_failure : Event → Bool
is_failure (settles succeeds) = not succeeds
is_failure _ = false

-- The log that a buffer stands for.
abbrev pub view : LogBuffer → List PendingLog
view b = b.written ++ map stored (concat b.flushing ++ b.entries)

-- The buffer is not full, its timer is set while it holds anything, and no write has failed.
abbrev pub IsHealthy : ℕ → LogBuffer → Type 0
IsHealthy max_entries b =
    (length b.entries < max_entries)
    × ((is_nil b.entries || b.timer) ≡ true)
    × (b.is_rejected ≡ false)

concat-append :
    (xss : List (List PendingLog)) (xs : List PendingLog)
    → concat (xss ++ xs ∷ []) ≡ concat xss ++ xs
concat-append [] xs = append_nil xs
concat-append (ys ∷ xss) xs =
    ap (λ z. ys ++ z) (concat-append xss xs) ∙ sym (append_assoc ys (concat xss) xs)

map-append : (xs ys : List PendingLog) → map stored (xs ++ ys) ≡ map stored xs ++ map stored ys
map-append [] ys = refl
map-append (x ∷ xs) ys = ap (λ l. stored x ∷ l) (map-append xs ys)

is_nil-eq : (xs : List PendingLog) → is_nil xs ≡ true → xs ≡ []
is_nil-eq [] h = refl
is_nil-eq (x ∷ xs) h = absurd (cc h)

flush-view : (b : LogBuffer) → view (flush b) ≡ view b
unfolding flush
flush-view b = elim (Bool-cases (is_nil b.entries)) [
  | inl e ↦ rw (e, flush) refl
  | inr e ↦
      rw (e, flush)
        (ap (λ z. b.written ++ map stored z) (append_nil _ ∙ concat-append b.flushing b.entries))
]

Batches-cases :
    (xss : List (List PendingLog))
    → (xss ≡ []) ⊎ ((xs : List PendingLog) × (yss : List (List PendingLog)) × (xss ≡ xs ∷ yss))
Batches-cases [] = inl refl
Batches-cases (xs ∷ yss) = inr (xs, yss, refl)

settle-view : (b : LogBuffer) → b.is_rejected ≡ false → view (settle true b) ≡ view b
unfolding settle
settle-view b h = elim (Batches-cases b.flushing) [
  | inl e ↦ rw (e, settle) (ap (λ z. b.written ++ map stored (concat z ++ b.entries)) e)
  | inr (batch, batches, e) ↦
      rw (e, settle)
        (rw h (
          append_assoc b.written (map stored batch) (map stored (concat batches ++ b.entries))
          ∙ ap (λ z. b.written ++ z)
              (sym (map-append batch (concat batches ++ b.entries))
                ∙ ap (map stored) (sym (append_assoc batch (concat batches) b.entries)))))
]

push-view :
    (b : LogBuffer) (entry : PendingLog)
    → view (record b { entries = b.entries ++ entry ∷ [] }) ≡ view b ++ stored entry ∷ []
push-view b entry =
    ap (λ z. b.written ++ map stored z)
      (sym (append_assoc (concat b.flushing) b.entries (entry ∷ [])))
    ∙ ap (λ z. b.written ++ z) (map-append (concat b.flushing ++ b.entries) (entry ∷ []))
    ∙ sym (append_assoc b.written (map stored (concat b.flushing ++ b.entries)) (stored entry ∷ []))

append-view :
    (max_entries : ℕ) (entry : PendingLog) (b : LogBuffer)
    → view (append max_entries entry b) ≡ view b ++ stored entry ∷ []
unfolding append
append-view max_entries entry b =
    let c : LogBuffer = record b { entries = b.entries ++ entry ∷ [] } in
    elim (Bool-cases (leb max_entries (length c.entries))) [
      | inl e ↦ rw (e, append) (flush-view c ∙ push-view b entry)
      | inr e ↦ rw (e, append) (push-view b entry)
    ]

handle-IsHealthy :
    (max_entries : ℕ) (e : Event) (b : LogBuffer)
    → 0 < max_entries
    → is_failure e ≡ false
    → IsHealthy max_entries b
    → IsHealthy max_entries (handle max_entries e b)
unfolding append flush settle
handle-IsHealthy max_entries (appends entry) b pos f h =
    ground (arith, length-append b.entries (entry ∷ []))
handle-IsHealthy max_entries flushes b pos f h = ground arith
handle-IsHealthy max_entries elapses b pos f h = ground arith
handle-IsHealthy max_entries (settles succeeds) b pos f h = ground arith

handle-view :
    (max_entries : ℕ) (e : Event) (b : LogBuffer)
    → is_failure e ≡ false
    → b.is_rejected ≡ false
    → view (handle max_entries e b) ≡ view b ++ map stored (appended (e ∷ []))
unfolding flush
handle-view max_entries (appends entry) b f h = append-view max_entries entry b
handle-view max_entries flushes b f h = flush-view b ∙ sym (append_nil (view b))
handle-view max_entries elapses b f h = elim (Bool-cases b.timer) [
  | inl e ↦ rw e (flush-view b ∙ sym (append_nil (view b)))
  | inr e ↦ rw e (sym (append_nil (view b)))
]
handle-view max_entries (settles true) b f h = settle-view b h ∙ sym (append_nil (view b))
handle-view max_entries (settles false) b f h = absurd (cc f)

appended-cons : (e : Event) (es : List Event) → appended (e ∷ es) ≡ appended (e ∷ []) ++ appended es
appended-cons (appends entry) es = refl
appended-cons flushes es = refl
appended-cons elapses es = refl
appended-cons (settles _) es = refl

-- While no write fails, a buffer stands for its log: the entries written, those of the batches that
-- wait and those that it still holds are together the entries appended so far, cut to the length
-- that the table takes and in their order; the buffer never holds as many as its limit, and its timer
-- is set while it holds any.
pub handle_all-view :
    (max_entries : ℕ) (es : List Event) (b : LogBuffer)
    → 0 < max_entries
    → any is_failure es ≡ false
    → IsHealthy max_entries b
    → (view (handle_all max_entries es b) ≡ view b ++ map stored (appended es))
      × IsHealthy max_entries (handle_all max_entries es b)
unfolding handle_all
handle_all-view max_entries [] b pos f h = (sym (append_nil (view b)), h)
handle_all-view max_entries (e ∷ es) b pos f (l, t, r) =
    let (v, k) =
      handle_all-view max_entries es (handle max_entries e b) pos (ground arith)
        (handle-IsHealthy max_entries e b pos (ground arith) (l, t, r)) in
    (
      v
          ∙ ap (λ z. z ++ map stored (appended es)) (handle-view max_entries e b (ground arith) r)
          ∙ append_assoc (view b) (map stored (appended (e ∷ []))) (map stored (appended es))
          ∙ ap (λ z. view b ++ z)
              (sym (map-append (appended (e ∷ [])) (appended es))
                ∙ ap (map stored) (sym (appended-cons e es))),
      k,
    )

handle-rejected :
    (max_entries : ℕ) (e : Event) (b : LogBuffer)
    → b.is_rejected ≡ true
    → ((handle max_entries e b).written ≡ b.written) × ((handle max_entries e b).is_rejected ≡ true)
unfolding append flush settle
handle-rejected max_entries (appends entry) b r = ground arith
handle-rejected max_entries flushes b r = ground arith
handle-rejected max_entries elapses b r = ground arith
handle-rejected max_entries (settles succeeds) b r = ground arith

handle_all-kept :
    (max_entries : ℕ) (es : List Event) (b : LogBuffer)
    → b.is_rejected ≡ true
    → (handle_all max_entries es b).written ≡ b.written
unfolding handle_all
handle_all-kept max_entries [] b r = refl
handle_all-kept max_entries (e ∷ es) b r =
    let (w, k) = handle-rejected max_entries e b r in
    handle_all-kept max_entries es (handle max_entries e b) k ∙ w

settle-fails :
    (batch : List PendingLog) (batches : List (List PendingLog)) (b : LogBuffer)
    → b.flushing ≡ batch ∷ batches
    → ((settle false b).written ≡ b.written) × ((settle false b).is_rejected ≡ true)
unfolding settle
settle-fails batch batches b e = rw (e, settle) (ground arith)

-- One failed write ends the log: once the write of a waiting batch fails, nothing more is written,
-- whatever is appended or flushed afterwards and whatever could be written, and also the batches
-- that waited behind it are lost.
pub handle_all-rejected :
    (max_entries : ℕ) (batch : List PendingLog) (batches : List (List PendingLog)) (es : List Event)
    (b : LogBuffer)
    → b.flushing ≡ batch ∷ batches
    → (handle_all max_entries (settles false ∷ es) b).written ≡ b.written
unfolding handle_all
handle_all-rejected max_entries batch batches es b e =
    let (w, k) = settle-fails batch batches b e in
    handle_all-kept max_entries es (settle false b) k ∙ w
