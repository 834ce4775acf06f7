-- ===== src/Sync/Filter/Words.antt =====
-- What the sensitive words guarantee of a filtered batch (SensitiveWordFilter::filter_batch).
use ai_cli_session_db.Prelude.{
  Text, Option, none, some, true, false, not, ◌≡◌, refl, sym, ap, ◌↔◌, map, Has, Has-retain,
  Has-retain_of, is_some_and, arith, subst, ◌⊎◌, inl, inr, Has-map,
}
use ai_cli_session_db.Sync.Batch.{SyncBatch, SyncMessage}
use ai_cli_session_db.Sync.Filter.{
  SensitiveWordFilter, block_mode, redact_mode, tag_mode, contains_sensitive, redact_message,
  redact_batch, is_message_sensitive, block_batch, filter_words,
}

-- The texts of a message that a push carries and the filter looks at.
abbrev pub OptionAll : (Text → Type 0) → Option Text → Type 0
OptionAll P none = Unit {0}
OptionAll P (some t) = P t

module _ (w : SensitiveWordFilter) where
  abbrev pub IsClean : Text → Type 0
  IsClean t = contains_sensitive w t ≡ false

  pub record MessageClean (m : SyncMessage) : Type 0 where
    pub text : IsClean m.content_text
    pub full : IsClean m.content_full
    pub raw : OptionAll IsClean m.raw
    pub args : OptionAll IsClean m.tool_args

  some-IsClean :
      (o : Option Text) → is_some_and o (contains_sensitive w) ≡ false → OptionAll IsClean o
  some-IsClean none e = tt
  some-IsClean (some t) e = e

  IsClean-some :
      (o : Option Text) → OptionAll IsClean o → is_some_and o (contains_sensitive w) ≡ false
  IsClean-some none h = refl
  IsClean-some (some t) h = h

  passes_clean : (m : SyncMessage) → not (is_message_sensitive w m) ≡ true → MessageClean m
  unfolding is_message_sensitive
  passes_clean m e = record {
    text = ground arith;
    full = ground arith;
    raw = some-IsClean m.raw (ground arith);
    args = some-IsClean m.tool_args (ground arith);
  }

  clean_passes : (m : SyncMessage) → MessageClean m → not (is_message_sensitive w m) ≡ true
  unfolding is_message_sensitive
  clean_passes m h =
      ground (arith, IsClean-some m.raw h.raw, IsClean-some m.tool_args h.args, h.text, h.full)

  filter_words-block :
      w.mode ≡ block_mode → (batch : SyncBatch) → filter_words w batch ≡ block_batch w batch
  unfolding filter_words
  filter_words-block blocks batch = ground arith

  kept :
      (batch : SyncBatch) (m : SyncMessage)
      → Has m (block_batch w batch).messages
      → Has m batch.messages × MessageClean m
  unfolding block_batch
  kept batch m h =
      let r = Has-retain (λ n. not (is_message_sensitive w n)) m batch.messages h in
      (r.0, passes_clean m r.1)

  keeps :
      (batch : SyncBatch) (m : SyncMessage)
      → Has m batch.messages × MessageClean m
      → Has m (block_batch w batch).messages
  unfolding block_batch
  keeps batch m r =
      Has-retain_of (λ n. not (is_message_sensitive w n)) m batch.messages r.0 (clean_passes m r.1)

  -- In block mode a message leaves exactly if it is in the batch and each of its texts is clean.
  pub block_batch-messages :
      w.mode ≡ block_mode
      → (batch : SyncBatch) (m : SyncMessage)
      → Has m (filter_words w batch).messages ↔ (Has m batch.messages × MessageClean m)
  block_batch-messages blocks batch m =
      let same = ap (λ (b : SyncBatch). b.messages) (filter_words-block blocks batch) in
      (λ h. kept batch m (subst (Has m) same h), λ r. subst (Has m) (sym same) (keeps batch m r))

  mode_cases : (w.mode ≡ redact_mode) ⊎ (w.mode ≡ block_mode) ⊎ (w.mode ≡ tag_mode)
  mode_cases = ground arith

  -- A message that the words let through comes from one of the batch, perhaps rewritten, with its
  -- place and its session.
  pub words_from :
      (batch : SyncBatch) (m : SyncMessage)
      → Has m (filter_words w batch).messages
      → (r : SyncMessage) × Has r batch.messages
        × (r.sequence ≡ m.sequence)
        × (r.session_id ≡ m.session_id)
  unfolding filter_words redact_batch redact_message
  words_from batch m h = elim mode_cases [
    | inl e ↦
        let same : (filter_words w batch).messages ≡ map (redact_message w) batch.messages =
          ground arith in
        let r = Has-map (redact_message w) m batch.messages (subst (Has m) same h) in
        (r.0, r.1, ap (λ t. t.sequence) (sym r.2), ap (λ t. t.session_id) (sym r.2))
    | inr (inl e) ↦ (m, ((block_batch-messages e batch m).0 h).0, refl, refl)
    | inr (inr e) ↦
        let same : (filter_words w batch).messages ≡ batch.messages = ground arith in
        (m, subst (Has m) same h, refl, refl)
  ]
