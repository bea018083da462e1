-- ===== src/Storage/Upload/Clean.antt =====
-- What a request leaves on the disk, storage/src/routes/upload.rs.
use sc_desktop_beautiful.Prelude.{
  All, Bool, List, Option, [], arith, false, if-cases, if◌then◌else◌, none, refl, some, subst, sym,
  true, ℕ, ◌+◌, ◌==◌, ◌∙◌, ◌∷◌, ◌≡◌, ◌≢◌, not,
}
use sc_desktop_beautiful.Prelude.Text.{codes, text_differs, text_eq, text_eq_sound}
use sc_desktop_beautiful.Storage.Files.{Files, remove, write, write_ne}
use sc_desktop_beautiful.Storage.Pipeline.{is_empty_text}
use sc_desktop_beautiful.Storage.Upload.{
  Chunk, Config, Field, Progress, Reply, Stage, Submit, add_chunk, and_then, bad_chunk, chunk, ends,
  file_field, file_stem, filename_field, finished, flushed, goes_on, multipart_error, nothing_yet,
  other_field, read_field, read_fields, receive, refused, sanitize_filename, tmp_path,
  unwrap_or_else, upload,
}

abbrev pub Writes : Chunk → Type 0
Writes (chunk n found found_again writes) = writes ≡ true
Writes bad_chunk = Unit

-- The request has one file at most, nothing but names follow it, and what the file brings can be written.
abbrev pub Careful : Bool → List Field → Type 0
Careful seen [] = Unit
Careful seen (multipart_error ∷ fs) = seen ≡ false
Careful seen (other_field ∷ fs) = Careful seen fs
Careful seen (filename_field none ∷ fs) = seen ≡ false
Careful seen (filename_field (some name) ∷ fs) = Careful seen fs
Careful seen (file_field id creates chunks flushes ∷ fs) =
    (seen ≡ false) × (flushes ≡ true) × All Writes chunks × Careful true fs

-- The names of the temporary files are new.
abbrev pub Fresh : List ℕ → Files → List Field → Type 0
Fresh dir files [] = Unit
Fresh dir files (file_field id creates chunks flushes ∷ fs) =
    (files (tmp_path dir id) ≡ none) × Fresh dir files fs
Fresh dir files (filename_field name ∷ fs) = Fresh dir files fs
Fresh dir files (other_field ∷ fs) = Fresh dir files fs
Fresh dir files (multipart_error ∷ fs) = Fresh dir files fs

module _ (files : Files) (cfg : Config) where
  abbrev Same : Files → Type 0
  Same f = (p : List ℕ) → f p ≡ files p

  -- All but one temporary file, which was not there.
  abbrev pub But : List ℕ → Files → Type 0
  But tmp f =
      ((id : List ℕ) × (tmp ≡ tmp_path cfg.source_path id))
      × (files tmp ≡ none)
      × ((p : List ℕ) → tmp ≢ p → f p ≡ files p)

  write-But : (tmp : List ℕ) (c : ℕ) (f : Files) → But tmp f → But tmp (write tmp c f)
  write-But tmp c f h = (h.0, h.1, λ p ne. write_ne tmp p c f ne ∙ h.2 p ne)

  remove-But : (tmp : List ℕ) (f : Files) → But tmp f → Same (remove tmp f)
  unfolding remove
  remove-But tmp f h p =
      if-cases (λ v. v ≡ files p) (text_eq tmp p) _ _
        (λ e. subst (λ q. none ≡ files q) (text_eq_sound tmp p e) (sym h.1))
        (λ e. h.2 p (text_differs tmp p e))

  -- The request ends with the files as they were, or goes on with `P`.
  abbrev Clean : {A : Type 0} → (A → Type 0) → Stage A → Type 0
  Clean P (goes_on a) = P a
  Clean P (ends status m f) = Same f

  receive-Clean :
      (limit : Option ℕ) (tmp : List ℕ) (chunks : List Chunk) (total reserved : ℕ) (f : Files)
      → All Writes chunks
      → But tmp f
      → Clean (λ r. But tmp r.2) (receive limit tmp chunks total reserved f)
  unfolding receive
  receive-Clean limit tmp [] total reserved f w h = h
  receive-Clean limit tmp (bad_chunk ∷ more) total reserved f w h = remove-But tmp f h
  receive-Clean limit tmp (chunk n found found_again writes ∷ more) total reserved f w h =
      let P : Stage (ℕ × ℕ × Files) → Type 0 = Clean (λ r. But tmp r.2) in
      let added = add_chunk limit n found found_again reserved in
      if-cases P (not added.0) _ _ (λ _. remove-But tmp f h)
        λ _.
          if-cases P (not writes) _ _ (λ e. absurd (ground (arith, w.0)))
            λ _.
              receive-Clean limit tmp more (total + n) added.2 (write tmp (total + n) f) w.1
                (write-But tmp (total + n) f h)

  -- Whether a file was read, and the file that is there then.
  abbrev Held : Bool → Progress → Type 0
  Held false p = Same p.files × (p.tmp_file_path ≡ none)
  Held true p = (tmp : List ℕ) × (p.tmp_file_path ≡ some tmp) × But tmp p.files

  flushed-Clean :
      (tmp : List ℕ) (p : Progress) (m : Stage (ℕ × ℕ × Files))
      → Clean (λ r. But tmp r.2) m
      → Clean (Held true) (flushed tmp true p m)
  unfolding flushed
  flushed-Clean tmp p (ends status m f) h = h
  flushed-Clean tmp p (goes_on (total, reserved, f)) h =
      if-cases (Clean (Held true)) (total == 0) _ _ (λ _. remove-But tmp f h) (λ _. (tmp, refl, h))

  read_file-Clean :
      (id : List ℕ) (creates : Bool) (chunks : List Chunk) (p : Progress)
      → All Writes chunks
      → files (tmp_path cfg.source_path id) ≡ none
      → Same p.files
      → Clean (Held true) (read_field cfg (file_field id creates chunks true) p)
  unfolding read_field
  read_file-Clean id creates chunks p w new h =
      let tmp = tmp_path cfg.source_path id in
      if-cases (Clean (Held true)) (not creates) _ _ (λ _. h)
        λ _. flushed-Clean tmp p _ (
          receive-Clean cfg.tmp_max_bytes tmp chunks 0 p.reserved (write tmp 0 p.files) w
            (write-But tmp 0 p.files ((id, refl), new, λ q ne. h q)))

  and_then-Clean :
      {A B : Type 0} (P : A → Type 0) (Q : B → Type 0) (m : Stage A) (f : A → Stage B)
      → Clean P m
      → ((a : A) → P a → Clean Q (f a))
      → Clean Q (and_then m f)
  unfolding and_then
  and_then-Clean P Q (goes_on a) f h k = k a h
  and_then-Clean P Q (ends status m g) f h k = h

  abbrev Kept : Progress → Type 0
  Kept p = (b : Bool) × Held b p

  unseen : (b : Bool) (p : Progress) → b ≡ false → Held b p → Same p.files
  unseen b p e h = (subst (λ c. Held c p) e h).0

  renamed :
      (b : Bool) (p : Progress) (name : Option (List ℕ))
      → Held b p
      → Held b (record p { filename = name })
  renamed false p name h = h
  renamed true p name h = h

  read_fields-Clean :
      (b : Bool) (fs : List Field) (p : Progress)
      → Careful b fs
      → Fresh cfg.source_path files fs
      → Held b p
      → Clean Kept (read_fields cfg fs p)
  unfolding read_fields read_field and_then
  read_fields-Clean b [] p c n h = (b, h)
  read_fields-Clean b (multipart_error ∷ fs) p c n h = unseen b p c h
  read_fields-Clean b (other_field ∷ fs) p c n h = read_fields-Clean b fs p c n h
  read_fields-Clean b (filename_field none ∷ fs) p c n h = unseen b p c h
  read_fields-Clean b (filename_field (some name) ∷ fs) p c n h =
      read_fields-Clean b fs _ c n (renamed b p (some name) h)
  read_fields-Clean b (file_field id creates chunks flushes ∷ fs) p c n h =
      and_then-Clean (Held true) Kept (read_field cfg (file_field id creates chunks flushes) p)
        (read_fields cfg fs)
        (subst (λ f. Clean (Held true) (read_field cfg (file_field id creates chunks f) p))
          (sym c.1) (read_file-Clean id creates chunks p c.2 n.0 (unseen b p c.0 h)))
        λ q k. read_fields-Clean true fs q c.3 n.1 k

  module _ (Temp : List ℕ → Type 0) (is_alphanumeric : ℕ → Bool) (submit : Submit)
      (submits : (tmp name : List ℕ) (f : Files)
        → But tmp f
        → ((submit tmp name f).1 tmp ≡ none)
          × ((p : List ℕ) → Temp p → tmp ≢ p → (submit tmp name f).1 p ≡ f p)) where
    abbrev SameTemp : Reply × Files → Type 0
    SameTemp out = (p : List ℕ) → Temp p → out.1 p ≡ files p

    submitted :
        (tmp name : List ℕ) (f : Files) (p : List ℕ)
        → But tmp f
        → Temp p
        → (b : Bool) → text_eq tmp p ≡ b
        → (submit tmp name f).1 p ≡ files p
    submitted tmp name f p h t true e =
        let same = text_eq_sound tmp p e in
        subst (λ q. (submit tmp name f).1 q ≡ files q) same ((submits tmp name f h).0 ∙ sym h.1)
    submitted tmp name f p h t false e =
        let ne = text_differs tmp p e in (submits tmp name f h).1 p t ne ∙ h.2 p ne

    finished-Same :
        (m : Stage Progress) → Clean Kept m → SameTemp (finished is_alphanumeric submit m)
    unfolding finished
    finished-Same (ends status m f) h = λ p t. h p
    finished-Same (goes_on q) (false, h) = rw h.1 (λ p t. h.0 p)
    finished-Same (goes_on q) (true, h) = rw h.1 (
        if-cases SameTemp
          (is_empty_text
            (sanitize_filename is_alphanumeric (unwrap_or_else q.filename (file_stem h.0))))
          _ _ (λ _ p t. remove-But h.0 q.files h.2 p)
          λ _ p t. submitted h.0 _ q.files p h.2 t (text_eq h.0 p) refl)

    pub upload-SameTemp :
        (bearer : Option (List ℕ)) (fields : List Field)
        → Careful false fields
        → Fresh cfg.source_path files fields
        → SameTemp (upload is_alphanumeric submit cfg bearer fields files)
    unfolding upload
    upload-SameTemp bearer fields c n =
        if-cases SameTemp cfg.disable_upload _ _ (λ _ p t. refl) (λ _. admitted bearer)
      where
        admitted :
            (b : Option (List ℕ))
            → SameTemp (elim b [
              | none ↦ (refused 401 (codes "missing token"), files)
              | some token ↦
                  if not (text_eq token cfg.admin_token)
                  then (refused 403 (codes "invalid token"), files)
                  else finished is_alphanumeric submit (read_fields cfg fields (nothing_yet files))
            ])
        admitted none = λ p t. refl
        admitted (some token) =
            if-cases SameTemp (not (text_eq token cfg.admin_token)) _ _ (λ _ p t. refl)
              λ _.
                finished-Same _
                  (read_fields-Clean false fields (nothing_yet files) c n ((λ p. refl), refl))
