-- ===== src/Vault/File/Laws.antt =====
-- What is written is read back with the same key.
use blindfold.Prelude.{
  ◌+◌, ◌≡◌, ◌≢◌, refl, sym, ap, ◌∙◌, arith, some, [], ◌∷◌, ◌++◌, length, take, drop, bytes_eq_refl,
  true, false, ltb, length-append, take-length-append, drop-length-append,
}
use blindfold.Core.SafeRef.{Text}
use blindfold.Vault.State.{ok, DiskState}
use blindfold.Vault.File.{
  magic, format_version, nonce_len, header_len, Outside, File, missing, symlink, present,
  or_corrupt, parse_plain, has_header, read_state, aad, header, write_state,
}

-- The state can be written as JSON, encrypted and authenticated with this key and nonce, and the
-- cipher and the JSON parser invert that.
pub record IsSealable (outside : Outside) (key nonce : Text) (state : DiskState) : Type 0 where
  pub plain : Text
  pub cipher : Text
  pub encoded : outside.to_vec state ≡ some plain
  pub encrypted : outside.encrypt key nonce aad plain ≡ some cipher
  pub decrypted : outside.decrypt key nonce aad cipher ≡ some plain
  pub decoded : outside.from_slice plain ≡ some state
  pub size : length nonce ≡ 24

module _ (outside : Outside) (key nonce : Text) (state : DiskState)
    (s : IsSealable outside key nonce state) where
  sealed_file : File
  sealed_file = present (header nonce ++ s.cipher)

  write_state-sealed :
      (file : File)
      → file ≢ symlink
      → write_state outside key (some nonce) file state ≡ (sealed_file, ok tt)
  unfolding write_state sealed_file
  write_state-sealed symlink n = absurd (n refl)
  write_state-sealed missing n = rw (s.encoded, s.encrypted)
  write_state-sealed (present bytes) n = rw (s.encoded, s.encrypted)

  header_size : length (header nonce) ≡ 33
  header_size = omega (arith, s.size, length-append aad nonce)

  has_header-sealed : has_header (header nonce ++ s.cipher) ≡ true
  has_header-sealed =
      let long : ltb (length (header nonce ++ s.cipher)) header_len ≡ false =
        ground (arith, length-append (header nonce) s.cipher, header_size) in
      rw (long, bytes_eq_refl magic, bytes_eq_refl (format_version ∷ []))

  nonce_part : take nonce_len (drop (length magic + 1) (header nonce ++ s.cipher)) ≡ nonce
  nonce_part = ap (λ n. take n (nonce ++ s.cipher)) (sym s.size) ∙ take-length-append nonce s.cipher

  cipher_part : drop header_len (header nonce ++ s.cipher) ≡ s.cipher
  cipher_part =
      ap (λ n. drop n (header nonce ++ s.cipher)) (sym header_size)
      ∙ drop-length-append (header nonce) s.cipher

  read_state-sealed : read_state outside key sealed_file ≡ ok state
  unfolding read_state sealed_file
  read_state-sealed =
      let bytes = header nonce ++ s.cipher in
      rw has_header-sealed (
        (λ i. parse_plain outside (outside.decrypt key (nonce_part i) aad (cipher_part i)))
        ∙ ap (parse_plain outside) s.decrypted
        ∙ ap or_corrupt s.decoded)

  -- A state that is written to a file that is no symbolic link is read back with the same key, if the
  -- cipher and the JSON parser invert what they made of it.
  pub read_state-write_state :
      (file : File)
      → file ≢ symlink
      → ((write_state outside key (some nonce) file state).1 ≡ ok tt)
        × (read_state outside key (write_state outside key (some nonce) file state).0 ≡ ok state)
  read_state-write_state file n =
      let w = write_state-sealed file n in
      (ap (λ x. x.1) w, ap (λ x. read_state outside key x.0) w ∙ read_state-sealed)
