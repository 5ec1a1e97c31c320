-- ===== src/Runtime/Naming.antt =====
-- The names of agents and of images: a valid name stays as it is, and the parts of an image's name are
-- found again.
use Prim.Native.Char.{Char, code}
use Prim.Native.String.append
use Prim.Native.String.{◌++◌}
use industrial_ams.Base.{
  ◌⊎◌, subst, ℕ, String, ◌≡◌, refl, sym, ap, ◌∙◌, inl, inr, true, false, none, some, ◌==◌, arith,
}
use industrial_ams.Runtime.{Request}
use industrial_ams.Runtime.Update.{image_name, text_of}
use industrial_ams.Py.Text.{before_first, split_last}
use industrial_ams.Runtime.{Request, Service}
use industrial_ams.Runtime.Names.{get_image_version}

-- No character of the text is that one.
abbrev pub Avoids : ℕ → String → Type 0
Avoids n String.[] = Unit
Avoids n (String.◌∷◌ c s) = ((code c == n) ≡ false) × Avoids n s

split_last-none : (n : ℕ) (s : String) → Avoids n s → split_last n s ≡ none
unfolding split_last
split_last-none n String.[] h = refl
split_last-none n (String.◌∷◌ c s) h = rw (split_last-none n s h.1, h.0)

split_last-cons :
    (n : ℕ) (c : Char) (s a b : String)
    → split_last n s ≡ some (a, b)
    → split_last n (String.◌∷◌ c s) ≡ some (String.◌∷◌ c a, b)
unfolding split_last
split_last-cons n c s a b h = rw h

split_last-append :
    (c : Char) (s t : String)
    → Avoids (code c) t
    → split_last (code c) (s ++ String.◌∷◌ c t) ≡ some (s, t)
unfolding split_last
split_last-append c String.[] t h = rw (append.nil, split_last-none (code c) t h) (ground arith)
split_last-append c (String.◌∷◌ d s) t h =
    ap (split_last (code c)) (append.cons d s (String.◌∷◌ c t))
    ∙ split_last-cons (code c) d (s ++ String.◌∷◌ c t) s t (split_last-append c s t h)

before_first-append :
    (n : ℕ) (c : Char) (s t : String)
    → (code c == n) ≡ true
    → Avoids n s
    → before_first n (s ++ String.◌∷◌ c t) ≡ s
unfolding before_first
before_first-append n c String.[] t e h = rw (append.nil, e)
before_first-append n c (String.◌∷◌ d s) t e h =
    rw (append.cons, h.0, before_first-append n c s t e h.1)

before_first-none : (n : ℕ) (s : String) → Avoids n s → before_first n s ≡ s
unfolding before_first
before_first-none n String.[] h = refl
before_first-none n (String.◌∷◌ c s) h = rw (h.0, before_first-none n s h.1)

Avoids-append : (n : ℕ) (s t : String) → Avoids n s → Avoids n t → Avoids n (s ++ t)
Avoids-append n String.[] t h k = subst (Avoids n) (sym (append.nil t)) k
Avoids-append n (String.◌∷◌ c s) t h k =
    subst (Avoids n) (sym (append.cons c s t)) (h.0, Avoids-append n s t h.1 k)

abbrev at_sign : Char
at_sign = "@"

abbrev colon : Char
colon = ":"

one_char : (c : Char) (s : String) → String.◌∷◌ c "" ++ s ≡ String.◌∷◌ c s
one_char c s = append.cons c "" s ∙ ap (String.◌∷◌ c) (append.nil s)

module _ (image version : String) (hi : Avoids b'@' image) (hv : Avoids b'@' version) where
  Avoids-named : Avoids b'@' (image ++ (":" ++ version))
  Avoids-named =
      Avoids-append b'@' image (":" ++ version) hi (Avoids-append b'@' ":" version (refl, tt) hv)

  split_named :
      Avoids b':' version → split_last b':' (image ++ (":" ++ version)) ≡ some (image, version)
  split_named hc =
      ap (λ t. split_last b':' (image ++ t)) (one_char colon version)
      ∙ split_last-append colon image version hc

get_image_version-named :
    (found : Service) (image version digest : String)
    → Avoids b'@' image
    → Avoids b'@' version
    → Avoids b':' version
    → (found.image ≡ image ++ (":" ++ version))
      ⊎ (found.image ≡ (image ++ (":" ++ version)) ++ ("@" ++ digest))
    → get_image_version found ≡ some (image, version)
unfolding get_image_version
get_image_version-named found image version digest hi hv hc (inl e) =
    ap (λ t. split_last b':' (before_first b'@' t)) e
    ∙ (ap (split_last b':')
          (before_first-none b'@' (image ++ (":" ++ version)) (Avoids-named image version hi hv))
        ∙ split_named image version hi hv hc)
get_image_version-named found image version digest hi hv hc (inr e) =
    ap (λ t. split_last b':' (before_first b'@' t)) e
    ∙ (ap (split_last b':') (
          ap (λ t. before_first b'@' ((image ++ (":" ++ version)) ++ t)) (one_char at_sign digest)
          ∙ before_first-append b'@' at_sign (image ++ (":" ++ version)) digest refl
              (Avoids-named image version hi hv))
        ∙ split_named image version hi hv hc)

-- Where a service's image is the name that `image_name` gives for a request, with or without a digest
-- that the daemon added, the request's image and version are read back from it, if neither holds an at
-- sign and the version holds no colon: an image's name may hold a colon, as in the port of a registry.
pub get_image_version-image_name :
    (found : Service) (request : Request) (image version digest : String)
    → request.image ≡ some image
    → request.version ≡ some version
    → Avoids b'@' image
    → Avoids b'@' version
    → Avoids b':' version
    → (found.image ≡ image_name request) ⊎ (found.image ≡ image_name request ++ ("@" ++ digest))
    → get_image_version found ≡ some (image, version)
get_image_version-image_name found request image version digest wi wv hi hv hc named =
    let e : image_name request ≡ image ++ (":" ++ version) =
      rw (ap text_of wi, ap text_of wv) refl in
    get_image_version-named found image version digest hi hv hc (elim named [
      | inl plain ↦ inl (plain ∙ e)
      | inr with_digest ↦ inr (with_digest ∙ ap (λ t. t ++ ("@" ++ digest)) e)
    ])
