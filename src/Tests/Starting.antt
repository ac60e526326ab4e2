-- ===== src/Tests/Starting.antt =====
-- The command line at concrete inputs.
use osmosis_publisher.Prelude.{
  arith, Text, codes, [], ◌∷◌, Option, some, pos, inl, inr, ◌≡◌, refl, ap, sym, pair_keys, ◌==◌,
  ==_cases, if◌then◌else◌, Map, lookup, text_eq, text_beq, decimal, digits,
}
use osmosis_publisher.Types.{ok}
use osmosis_publisher.Command.{
  trim, trim_left, trim_right, split_and_trim_empty, pool_ids_flag, pool_ids_of,
}
use osmosis_publisher.Command.Splitting.{join, split_and_trim_empty-join}
use osmosis_publisher.Command.PoolIds.{pool_ids_flag-join}
use osmosis_publisher.Command.Users.{
  Keys, AreKeys, tried, sign_user, name_user, seed_user, user_of, user_of_account, create_user,
  create_user_claims,
}

split_and_trim_empty-join_example :
    split_and_trim_empty (codes " 1,,  ,22 ") (codes ",") (codes " ") ≡ codes "1" ∷ codes "22" ∷ []
unfolding join trim trim_left trim_right
split_and_trim_empty-join_example =
    split_and_trim_empty-join b',' (codes " ") (codes " 1") ([] ∷ codes "  " ∷ codes "22 " ∷ [])
      (refl, (refl, (refl, (refl, tt))))

abbrev env : Map Text Text
env = (codes "POOL_IDS", codes "1,1077") ∷ []

pool_ids_flag-join_example :
    (pool_ids_flag env ≡ ok (pos 1 ∷ pos 1077 ∷ []))
    × (pool_ids_of (pos 1 ∷ pos 1077 ∷ []) ≡ ok (1 ∷ 1077 ∷ []))
unfolding lookup text_beq join decimal digits
pool_ids_flag-join_example =
    pool_ids_flag-join env 1 (1077 ∷ []) refl (omega arith, (omega arith, tt))

-- Keys are texts, their own seeds and public keys; one token is made.
abbrev names : Text × Text
names = (codes "A", codes "U")

abbrev text_keys : Keys Text
text_keys = record {
  from_seed = λ t. inl t;
  created = inl (codes "U");
  public_key = λ k. inl k;
  seed_of = λ k. inl k;
  encode = λ issuer subject k.
      if (issuer, subject) == names then inl (codes "AU") else inr (codes "not known" ∷ []);
}

encoded_names :
    (issuer subject token k : Text)
    → text_keys.encode issuer subject k ≡ inl token
    → ◌≡◌ {A = Option (Text × Text)} (some names) (some (issuer, subject))
encoded_names issuer subject token k e = elim (==_cases (issuer, subject) names) [
  | inl (t, p) ↦ ap some (sym p)
  | inr (f, n) ↦ cc
]

are_text_keys : AreKeys text_keys
are_text_keys = record {
  claims = λ t. some names;
  encoded = encoded_names;
  seeded = λ k seed e. (seed, (refl, sym e));
}

create_user_claims_example :
    (account : Text) × ((user : Text) × ((issuer : Text) × ((subject : Text) × ((text_keys.from_seed
                (codes "A")
              ≡ inl account)
            × ((text_keys.public_key account ≡ inl issuer)
                × ((text_keys.from_seed (codes "U") ≡ inl user)
                    × ((text_keys.public_key user ≡ inl subject)
                        × (are_text_keys.claims (codes "AU") ≡ some (issuer, subject)))))))))
unfolding create_user user_of_account user_of seed_user name_user sign_user tried text_beq
create_user_claims_example =
    create_user_claims text_keys are_text_keys (codes "A") (codes "U") (codes "AU") refl
