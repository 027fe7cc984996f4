-- ===== src/Identity/Service.antt =====
-- backend/src/lms/modules/identity/entities.py and services.py. The verification of tokens and the
-- readers of profiles and sessions are ports.
use lawrence_ai_lms.Prelude.{
  ◌≡◌, refl, ap, ◌↔◌, String, Bool, true, false, Option, none, some, ◌&&◌, ◌==◌, str_eq,
  if◌then◌else◌, Bool-cases, inl, inr, ==_iff, str_eq_iff,
}
use lawrence_ai_lms.Prelude.Exec.{Result, ok, err}
use lawrence_ai_lms.Learning.Types.{Uuid, Datetime}

pub data AssuranceLevel : Type 0 where
  aal1 aal2 : AssuranceLevel

pub record VerifiedAccessToken : Type 0 where
  pub subject : Uuid
  pub session_id : Uuid
  pub authentication_time : Datetime
  pub assurance_level : AssuranceLevel
  pub verified_email : String

pub record IdentityProfile : Type 0 where
  pub id : Uuid
  pub provider_subject : Uuid
  pub status : String

pub record IdentityCandidate : Type 0 where
  pub principal_id : Uuid
  pub profile_id : Uuid
  pub session_id : Uuid
  pub authentication_time : Datetime
  pub assurance_level : AssuranceLevel
  pub verified_email : String

pub data AuthenticationError : Type 0 where
  authentication_rejected : AuthenticationError

-- `verify` is `none` where it raises `TokenInvalidError`.
pub record IdentityPorts : Type 0 where
  pub verify : String → Option VerifiedAccessToken
  pub get_by_provider_subject : Uuid → Option IdentityProfile
  pub is_active : Uuid → Uuid → Bool

-- A profile that is the subject's own and active.
abbrev pub is_active_profile : Uuid → IdentityProfile → Bool
is_active_profile subject profile =
    profile.provider_subject == subject && str_eq profile.status "active"

abbrev pub candidate_of : VerifiedAccessToken → IdentityProfile → IdentityCandidate
candidate_of verified profile = record {
  principal_id = verified.subject;
  profile_id = profile.id;
  session_id = verified.session_id;
  authentication_time = verified.authentication_time;
  assurance_level = verified.assurance_level;
  verified_email = verified.verified_email;
}

module _ (ports : IdentityPorts) where
  abbrev pub admit_profile :
      VerifiedAccessToken → Option IdentityProfile → Result AuthenticationError IdentityCandidate
  admit_profile verified none = err authentication_rejected
  admit_profile verified (some profile) =
      if is_active_profile verified.subject profile
        && ports.is_active verified.subject verified.session_id
      then ok (candidate_of verified profile)
      else err authentication_rejected

  abbrev pub admit_token : Option VerifiedAccessToken → Result AuthenticationError IdentityCandidate
  admit_token none = err authentication_rejected
  admit_token (some verified) =
      admit_profile verified (ports.get_by_provider_subject verified.subject)

  -- `IdentityService.authenticate`
  unfoldable pub authenticate : String → Result AuthenticationError IdentityCandidate
  authenticate token = admit_token (ports.verify token)

  -- The token is verified, and its subject has an active profile and an active session.
  pub record IsAuthenticated (token : String) (candidate : IdentityCandidate) : Type 0 where
    pub verified : VerifiedAccessToken
    pub verifies : ports.verify token ≡ some verified
    pub profile : IdentityProfile
    pub found : ports.get_by_provider_subject verified.subject ≡ some profile
    pub own : profile.provider_subject ≡ verified.subject
    pub active : profile.status ≡ "active"
    pub live : ports.is_active verified.subject verified.session_id ≡ true
    pub same : candidate_of verified profile ≡ candidate

  all_three : (a b c : Bool) → ((a && b) && c) ≡ true → (a ≡ true) × ((b ≡ true) × (c ≡ true))
  all_three true true c h = (refl, (refl, h))
  all_three true false c h = cc
  all_three false b c h = cc

  value_or : IdentityCandidate → Result AuthenticationError IdentityCandidate → IdentityCandidate
  value_or d (ok c) = c
  value_or d (err e) = d

  admit_profile-IsAuthenticated :
      (token : String) (verified : VerifiedAccessToken) (found : Option IdentityProfile)
      {candidate : IdentityCandidate}
      → ports.verify token ≡ some verified
      → ports.get_by_provider_subject verified.subject ≡ found
      → admit_profile verified found ≡ ok candidate
      → IsAuthenticated token candidate
  unfolding value_or
  admit_profile-IsAuthenticated token verified none p q h = cc
  admit_profile-IsAuthenticated token verified (some profile) {candidate} p q h =
      elim (Bool-cases (
        is_active_profile verified.subject profile
        && ports.is_active verified.subject verified.session_id)) [
          | inl e ↦
              let (own, rest) = all_three _ _ _ e in
              let (active, live) = rest in
              record {
                verified = verified;
                verifies = p;
                profile = profile;
                found = q;
                own = (==_iff profile.provider_subject verified.subject).0 own;
                active = (str_eq_iff profile.status "active").0 active;
                live = live;
                same = ap (value_or candidate) (rw e at h);
              }
          | inr e ↦ absurd (refused (rw e at h))
        ]
    where
      refused :
          {e : AuthenticationError} {c : IdentityCandidate}
          → ◌≡◌ {A = Result AuthenticationError IdentityCandidate} (err e) (ok c)
          → ⊥
      refused x = cc

  admit_token-IsAuthenticated :
      (token : String) (verified : Option VerifiedAccessToken) {candidate : IdentityCandidate}
      → ports.verify token ≡ verified
      → admit_token verified ≡ ok candidate
      → IsAuthenticated token candidate
  admit_token-IsAuthenticated token none p h = cc
  admit_token-IsAuthenticated token (some v) p h =
      admit_profile-IsAuthenticated token v (ports.get_by_provider_subject v.subject) p refl h

  IsAuthenticated-authenticate :
      (token : String) {candidate : IdentityCandidate}
      → IsAuthenticated token candidate
      → authenticate token ≡ ok candidate
  unfolding authenticate
  IsAuthenticated-authenticate token a = rw a.verifies (
      rw a.found (
        rw ((==_iff a.profile.provider_subject a.verified.subject).1 a.own)
          (rw ((str_eq_iff a.profile.status "active").1 a.active) (rw a.live (ap ok a.same)))))

  -- A caller is authenticated exactly where the token verifies, and the subject has a profile of its
  -- own that is active and a session that is active; the candidate has what token and profile say.
  pub authenticate_iff :
      (token : String) (candidate : IdentityCandidate)
      → (authenticate token ≡ ok candidate) ↔ IsAuthenticated token candidate
  unfolding authenticate
  authenticate_iff token candidate = (
    (λ h. admit_token-IsAuthenticated token (ports.verify token) refl h),
    IsAuthenticated-authenticate token,
  )
