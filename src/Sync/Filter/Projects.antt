-- ===== src/Sync/Filter/Projects.antt =====
-- What the allow list guarantees of a filtered batch (ProjectFilter::filter_batch).
use ai_cli_session_db.Prelude.{
  String, true, ◌≡◌, sym, ◌∙◌, ap, ◌↔◌, retain, Has, Has-retain, Has-retain_of, retain_ext,
  retain_all, contains, contains-Has, contains_of_Has, subst, bool_ext,
}
use ai_cli_session_db.Sync.Batch.{SyncBatch, SyncProject, SyncSession, SyncMessage}
use ai_cli_session_db.Sync.Filter.{
  ProjectFilter, is_allowed, allowed_paths, allowed_sessions, filter_projects,
}

module _ (f : ProjectFilter) (batch : SyncBatch) where
  -- Whether a path is that of an allowed project of the batch.
  abbrev pub IsOpen : String → Type 0
  IsOpen path =
      (p : SyncProject) × Has p batch.projects × (is_allowed f p.path ≡ true) × (p.path ≡ path)

  path-IsOpen : (path : String) → contains (allowed_paths f batch) path ≡ true → IsOpen path
  unfolding allowed_paths
  path-IsOpen path e = contains-Has (λ p. p.path) (λ p. is_allowed f p.path) batch.projects path e

  IsOpen-path : (path : String) → IsOpen path → contains (allowed_paths f batch) path ≡ true
  unfolding allowed_paths
  IsOpen-path path (p, m, e, q) =
      subst (λ k. contains (allowed_paths f batch) k ≡ true) q
        (contains_of_Has (λ p. p.path) (λ p. is_allowed f p.path) batch.projects p m e)

  -- The projects that leave are exactly the allowed ones.
  pub filter_projects-projects :
      (filter_projects f batch).projects ≡ retain (λ p. is_allowed f p.path) batch.projects
  unfolding filter_projects allowed_paths
  filter_projects-projects =
      retain_ext (λ p. contains (allowed_paths f batch) p.path) (λ p. is_allowed f p.path)
        batch.projects
        λ p m.
          bool_ext _ _ (λ e. let r = path-IsOpen p.path e in ap (is_allowed f) (sym r.3) ∙ r.2)
            (λ e. contains_of_Has (λ p. p.path) (λ p. is_allowed f p.path) batch.projects p m e)

  -- A session leaves exactly if it is in the batch and its project is an allowed one of the batch.
  pub filter_projects-sessions :
      (s : SyncSession)
      → Has s (filter_projects f batch).sessions ↔ (Has s batch.sessions × IsOpen s.project_path)
  unfolding filter_projects
  filter_projects-sessions s = (
    λ m. let r = Has-retain _ s batch.sessions m in (r.0, path-IsOpen s.project_path r.1),
    λ r. Has-retain_of _ s batch.sessions r.0 (IsOpen-path s.project_path r.1),
  )

  -- Whether an identifier is that of a session that leaves.
  abbrev pub Leaves : String → Type 0
  Leaves id = (s : SyncSession) × Has s (filter_projects f batch).sessions × (s.session_id ≡ id)

  id-Leaves : (id : String) → contains (allowed_sessions f batch) id ≡ true → Leaves id
  unfolding allowed_sessions filter_projects
  id-Leaves id e =
      let r =
        contains-Has (λ (s : SyncSession). s.session_id)
          (λ s. contains (allowed_paths f batch) s.project_path) batch.sessions id e in
      (r.0, Has-retain_of _ r.0 batch.sessions r.1 r.2, r.3)

  Leaves-id : (id : String) → Leaves id → contains (allowed_sessions f batch) id ≡ true
  unfolding allowed_sessions filter_projects
  Leaves-id id (s, m, q) =
      let r = Has-retain _ s batch.sessions m in
      subst (λ k. contains (allowed_sessions f batch) k ≡ true) q
        (contains_of_Has (λ (t : SyncSession). t.session_id)
          (λ t. contains (allowed_paths f batch) t.project_path) batch.sessions s r.0 r.1)

  -- A message leaves exactly if it is in the batch and its session leaves.
  pub filter_projects-messages :
      (m : SyncMessage)
      → Has m (filter_projects f batch).messages ↔ (Has m batch.messages × Leaves m.session_id)
  unfolding filter_projects
  filter_projects-messages m = (
    λ h. let r = Has-retain _ m batch.messages h in (r.0, id-Leaves m.session_id r.1),
    λ r. Has-retain_of _ m batch.messages r.0 (Leaves-id m.session_id r.1),
  )

  -- No message leaves whose session is not in a project that the list allows.
  pub message_allowed :
      (m : SyncMessage)
      → Has m (filter_projects f batch).messages
      → (s : SyncSession) × Has s batch.sessions
        × (s.session_id ≡ m.session_id)
        × (is_allowed f s.project_path ≡ true)
  message_allowed m h =
      let r = (filter_projects-messages m).0 h in
      let leaving = r.1 in
      let o = (filter_projects-sessions leaving.0).0 leaving.1 in
      (leaving.0, o.0, leaving.2, ap (is_allowed f) (sym o.1.3) ∙ o.1.2)

  -- Where every message is of one session that leaves, all of them leave.
  pub filter_projects-messages_all :
      (id : String)
      → Leaves id
      → ((m : SyncMessage) → Has m batch.messages → m.session_id ≡ id)
      → (filter_projects f batch).messages ≡ batch.messages
  unfolding filter_projects
  filter_projects-messages_all id open_id all =
      retain_all (λ m. contains (allowed_sessions f batch) m.session_id) batch.messages
        λ m h.
          subst (λ k. contains (allowed_sessions f batch) k ≡ true) (sym (all m h))
            (Leaves-id id open_id)
