-- ===== src/Daemon/Identity.antt =====
-- src/app/taurusd/util.rs: `get_peer_identity_key`. The key pairs are libp2p's, with the encoding that
-- the key file holds. The files are a map; a path that has no entry, or that cannot be read, has none.
use libtaurus.Prelude.{
  ℕ, ◌≡◌, refl, sym, ap, ◌∙◌, Bool, true, false, Option, none, some, List, Key, Result, ok, panic,
  ◌>>=◌, unwrap, >>=-eq-ok, unwrap-eq-ok, ok-injective, if◌then◌else◌,
}
use libtaurus.Map
use libtaurus.Map.{Map, get}

abbrev pub Files : Type 0 → Type 0
Files Location = Map Location (List ℕ)

module _ {Location Keypair : Type 0} ⦃paths : Key Location⦄ (encode : Keypair → Option (List ℕ))
    (decode : List ℕ → Option Keypair) where
  -- `fs::write(…).expect(…)`, where `writable` says whether the file can be written.
  abbrev pub write : Bool → Files Location → Location → List ℕ → Result (Unit {0}) (Files Location)
  write writable files path bytes = if writable then ok (Map.insert files path bytes) else panic

  abbrev pub new_identity :
      Bool → Files Location → Location → Keypair → Result (Unit {0}) (Files Location × Keypair)
  new_identity writable files keypath newkey = do
    bytes ← unwrap (encode newkey)
    files' ← write writable files keypath bytes
    ok (files', newkey)

  -- `get_peer_identity_key`: the key of the file, or the key that was generated, which is saved.
  unfoldable pub get_peer_identity_key :
      Bool → Files Location → Location → Keypair → Result (Unit {0}) (Files Location × Keypair)
  get_peer_identity_key writable files keypath newkey = elim (get files keypath) [
    | some keydata ↦ (do key ← unwrap (decode keydata); ok (files, key))
    | none ↦ new_identity writable files keypath newkey
  ]

  write-eq-ok :
      (writable : Bool) (files files' : Files Location) (path : Location) (bytes : List ℕ)
      → write writable files path bytes ≡ ok files'
      → Map.insert files path bytes ≡ files'
  write-eq-ok true files files' path bytes h = ok-injective h
  write-eq-ok false files files' path bytes h = cc

  -- A new identity is in its file.
  new_identity-saved :
      (writable : Bool) (files files' : Files Location) (keypath : Location) (newkey key : Keypair)
      → new_identity writable files keypath newkey ≡ ok (files', key)
      → (bytes : List ℕ) × (encode key ≡ some bytes) × (get files' keypath ≡ some bytes)
  new_identity-saved writable files files' keypath newkey key h =
      let (bytes, e, h₁) = >>=-eq-ok (unwrap (encode newkey)) _ h in
      let (fs, w, h₂) = >>=-eq-ok (write writable files keypath bytes) _ h₁ in
      let end = ok-injective h₂ in
      let stored : Map.insert files keypath bytes ≡ files' =
        write-eq-ok writable files fs keypath bytes w
        ∙ ap (λ (r : Files Location × Keypair). r.0) end in
      (
        bytes,
        ap encode (sym (ap (λ (r : Files Location × Keypair). r.1) end))
            ∙ unwrap-eq-ok (encode newkey) e,
        ap (λ m. get m keypath) (sym stored) ∙ Map.get-insert_self files keypath bytes,
      )

  -- Where the codec decodes what it encoded: once a start of the daemon has got a key, every later start
  -- gets the same key, whatever key it generates, and leaves the files as they are.
  pub get_peer_identity_key-lasts :
      ((key : Keypair) (bytes : List ℕ) → encode key ≡ some bytes → decode bytes ≡ some key)
      → (writable later : Bool) (files files' : Files Location) (keypath : Location)
        (newkey other key : Keypair)
      → get_peer_identity_key writable files keypath newkey ≡ ok (files', key)
      → get_peer_identity_key later files' keypath other ≡ ok (files', key)
  unfolding get_peer_identity_key
  get_peer_identity_key-lasts codec writable later files files' keypath newkey other key h =
      look (get files keypath) refl h
    where
      Lasts : Type 0
      Lasts = get_peer_identity_key later files' keypath other ≡ ok (files', key)

      read : (bytes : List ℕ) → get files' keypath ≡ some bytes → decode bytes ≡ some key → Lasts
      read bytes e f = rw (get_peer_identity_key, e, f) refl

      look :
          (o : Option (List ℕ))
          → get files keypath ≡ o
          → (elim o [
            | some keydata ↦
                ◌>>=◌ {B = Files Location × Keypair} (unwrap (decode keydata)) (λ k. ok (files, k))
            | none ↦ new_identity writable files keypath newkey
          ])
            ≡ ok (files', key)
          → Lasts
      look (some keydata) e h' =
          let (k, f, g) = >>=-eq-ok (unwrap (decode keydata)) _ h' in
          let same = ok-injective g in
          read keydata (ap (λ (r : Files Location × Keypair). get r.0 keypath) (sym same) ∙ e)
            (unwrap-eq-ok (decode keydata) f ∙ ap (λ (r : Files Location × Keypair). some r.1) same)
      look none e h' =
          let (bytes, f, g) = new_identity-saved writable files files' keypath newkey key h' in
          read bytes g (codec key bytes f)
