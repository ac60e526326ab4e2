-- ===== src/Command/Users.antt =====
-- CreateUser of cmd/utils.go: a user of the account that a seed belongs to. What makes keys and
-- tokens (nkeys, jwt) is the argument.
use osmosis_publisher.Prelude.{Text, codes, ◌∷◌, ◌⊎◌, inl, inr, Option, some, ◌≡◌, refl, ◌∙◌, subst}
use osmosis_publisher.Types.{Error}

-- `created` is the key that nkeys.CreateUser makes; `encode` takes the issuer and the subject of the
-- claims, and the key that signs them.
pub record Keys (K : Type 0) : Type 0 where
  pub from_seed : Text → K ⊎ Error
  pub created : K ⊎ Error
  pub public_key : K → Text ⊎ Error
  pub seed_of : K → Text ⊎ Error
  pub encode : Text → Text → K → Text ⊎ Error

-- What nkeys and jwt say: a token's claims are those encoded, and a key's seed gives a key of the
-- same public key.
pub record AreKeys {K : Type 0} (keys : Keys K) : Type 0 where
  pub claims : Text → Option (Text × Text)
  pub encoded :
      (issuer subject token : Text) (k : K)
      → keys.encode issuer subject k ≡ inl token
      → claims token ≡ some (issuer, subject)
  pub seeded :
      (k : K) (seed : Text)
      → keys.seed_of k ≡ inl seed
      → (k' : K) × ((keys.from_seed seed ≡ inl k') × (keys.public_key k' ≡ keys.public_key k))

-- `if err != nil { return fmt.Errorf(…) }`
unfoldable pub tried : {A B : Type 0} → Text → A ⊎ Error → (A → B ⊎ Error) → B ⊎ Error
tried what (inl a) next = next a
tried what (inr e) next = inr (what ∷ e)

module _ {K : Type 0} (keys : Keys K) where
  -- The parts of CreateUser from the account's public key on, from the user's key on, and from the
  -- user's public key on.
  unfoldable pub sign_user : K → Text → Text → Text → (Text × Text) ⊎ Error
  unfolding tried
  sign_user account issuer nkey subject =
      tried (codes "error encoding token to jwt") (keys.encode issuer subject account)
        (λ token. inl (nkey, token))

  unfoldable pub name_user : K → Text → K → Text → (Text × Text) ⊎ Error
  unfolding sign_user
  name_user account issuer user nkey =
      tried (codes "cannot get user's public key") (keys.public_key user)
        (sign_user account issuer nkey)

  unfoldable pub seed_user : K → Text → K → (Text × Text) ⊎ Error
  unfolding name_user
  seed_user account issuer user =
      tried (codes "failed to get seed") (keys.seed_of user) (name_user account issuer user)

  unfoldable pub user_of : K → Text → (Text × Text) ⊎ Error
  unfolding seed_user
  user_of account issuer =
      tried (codes "unable to create account key") keys.created (seed_user account issuer)

  unfoldable pub user_of_account : K → (Text × Text) ⊎ Error
  unfolding user_of
  user_of_account account =
      tried (codes "error getting public key") (keys.public_key account) (user_of account)

  -- The user's seed and token.
  unfoldable pub create_user : Text → (Text × Text) ⊎ Error
  unfolding user_of_account
  create_user seed =
      tried (codes "failed to get account key from seed") (keys.from_seed seed) user_of_account

-- A chain that succeeds has a first step that succeeds.
tried-inl :
    {A B : Type 0} (what : Text) (x : A ⊎ Error) (next : A → B ⊎ Error) (b : B)
    → tried what x next ≡ inl b
    → (a : A) × ((x ≡ inl a) × (next a ≡ inl b))
unfolding tried
tried-inl what (inl a) next b h = (a, (refl, h))
tried-inl what (inr e) next b h = cc

-- If CreateUser succeeds, its token names as issuer the public key of the account that the given
-- seed belongs to, and as subject the public key of the user whose seed it returns.
pub create_user_claims :
    {K : Type 0} (keys : Keys K) (are : AreKeys keys) (seed nkey token : Text)
    → create_user keys seed ≡ inl (nkey, token)
    → (account : K) × ((user : K) × ((issuer : Text) × ((subject : Text) × ((keys.from_seed seed
                ≡ inl account)
              × ((keys.public_key account ≡ inl issuer)
                  × ((keys.from_seed nkey ≡ inl user)
                      × ((keys.public_key user ≡ inl subject)
                          × (are.claims token ≡ some (issuer, subject)))))))))
unfolding create_user
create_user_claims keys are seed nkey token h =
    let (account, (a, h1)) = tried-inl _ (keys.from_seed seed) (user_of_account keys) _ h in
    let (issuer, (i, h2)) = tried-inl _ (keys.public_key account) (user_of keys account) _ h1 in
    let (user, (u, h3)) = tried-inl _ keys.created (seed_user keys account issuer) _ h2 in
    let (nkey', (s, h4)) =
      tried-inl _ (keys.seed_of user) (name_user keys account issuer user) _ h3 in
    let (subject, (p, h5)) =
      tried-inl _ (keys.public_key user) (sign_user keys account issuer nkey') _ h4 in
    let (token', (t, h6)) =
      tried-inl _ (keys.encode issuer subject account) (λ x. inl (nkey', x)) _ h5 in
    let (user', (f, same)) = are.seeded user nkey' s in
    let seeds : nkey' ≡ nkey = cc in
    let tokens : token' ≡ token = cc in
    (
      account,
      (
        user',
        (
          issuer,
          (
            subject,
            (
              a,
              (
                i,
                (
                  subst (λ x. keys.from_seed x ≡ inl user') seeds f,
                  (
                    same ∙ p,
                    subst (λ x. are.claims x ≡ some (issuer, subject)) tokens
                        (are.encoded issuer subject token' account t),
                  ),
                ),
              ),
            ),
          ),
        ),
      ),
    )
