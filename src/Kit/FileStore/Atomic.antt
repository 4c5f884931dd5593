-- ===== src/Kit/FileStore/Atomic.antt =====
-- A save of the file store leaves the old snapshot or the new one.
use bigfleet_providers.Prelude.{
  String, String-discrete, Bool, true, false, Option, none, some, ok, ◌≡◌, ◌≢◌, refl, ◌⊎◌, inl, inr,
  if_neg, if◌then◌else◌, Option-cases,
}
use bigfleet_providers.Kit.Errors.{Error}
use bigfleet_providers.Kit.Store.{Snapshot}
use bigfleet_providers.Kit.FileStore.{
  Codec, Disk, Faults, load_file, read_file, decoded, clean, replace, encoded, save_file,
}

-- What encoding/json promises: a text that it makes is not empty and decodes to what it was made of.
pub record Faithful (codec : Codec) : Type 0 where
  pub decodes :
      (s : Snapshot) (text : String) → codec.encode s ≡ some text → codec.decode text ≡ some s
  pub full : (s : Snapshot) (text : String) → codec.encode s ≡ some text → text ≢ ""

module _ (codec : Codec) (faithful : Faithful codec) (f : Faults) where
  -- The disk after a save: the file is as it was and an error is reported, or it is the text.
  pub record Saved (text : String) (d : Disk) (r : Disk × Option Error) : Type 0 where
    pub readable : r.0.unreadable ≡ d.unreadable
    pub file : ((r.0.file ≡ d.file) × (r.1 ≢ none)) ⊎ ((r.0.file ≡ some text) × (r.1 ≡ none))

  if-Saved :
      (b : Bool) (text : String) (d : Disk) (x y : Disk × Option Error)
      → Saved text d x
      → Saved text d y
      → Saved text d (if b then x else y)
  if-Saved true text d x y h k = h
  if-Saved false text d x y h k = k

  failed-Saved :
      (text : String) (d : Disk) (t : Option String) (e : Error)
      → Saved text d (record d { temporary = t }, some e)
  failed-Saved text d t e = record { readable = refl; file = inl (refl, λ q. cc) }

  replace-Saved : (text : String) (d : Disk) → Saved text d (replace codec f text d)
  unfolding replace clean
  replace-Saved text d = if-Saved f.create text d _ _ (failed-Saved text d _ _) (
      if-Saved f.write text d _ _ (failed-Saved text d _ _) (
        if-Saved f.sync text d _ _ (failed-Saved text d _ _) (
          if-Saved f.close text d _ _ (failed-Saved text d _ _) (
            if-Saved f.rename text d _ _ (failed-Saved text d _ _)
              (record { readable = refl; file = inr (refl, refl) })))))

  -- What a save leaves to be read.
  abbrev pub Kept : Snapshot → Disk → Disk × Option Error → Type 0
  Kept s d r =
      ((load_file codec r.0 ≡ ok s) × (r.1 ≡ none))
      ⊎ ((load_file codec r.0 ≡ load_file codec d) × (r.1 ≢ none))

  Saved-Kept :
      (s : Snapshot) (text : String) (d : Disk) (r : Disk × Option Error)
      → codec.encode s ≡ some text
      → d.unreadable ≡ false
      → Saved text d r
      → Kept s d r
  unfolding load_file read_file decoded
  Saved-Kept s text d r e h k = elim k.file [
    | inl (same, error) ↦ inr (rw (k.readable, same) refl, error)
    | inr (new, fine) ↦ inl (
      rw
          (
            k.readable,
            h,
            new,
            if_neg (String-discrete text "") (faithful.full s text e),
            faithful.decodes s text e,
          )
          refl,
      fine,
    )
  ]

  -- On a readable disk and with a codec that decodes what it encodes: a save that reports no error
  -- is read back, and one that reports an error changes nothing that is read, whichever calls fail.
  pub save_file-Kept :
      (s : Snapshot) (d : Disk) → d.unreadable ≡ false → Kept s d (save_file codec f s d)
  unfolding save_file encoded
  save_file-Kept s d h = elim (Option-cases (codec.encode s)) [
    | inl n ↦ rw n (inr (refl, λ q. cc))
    | inr (text, e) ↦ rw e (Saved-Kept s text d _ e h (replace-Saved text d))
  ]
