-- ===== src/Controller/Returned.antt =====
-- Which calls of the backend have returned, through the parts of a submission.
use mt.Base.{String, true, ◌≡◌, refl, List, [], ◌∷◌, ℤ, ◌⊎◌, inl, inr}
use mt.Json.{Fields}
use mt.Errors.{Result, ok, err, is_verification, is_artifact_binding, is_authorization_refused}
use mt.Models.{RoundWindow, PackagedArtifact}
use mt.System.{
  Files, Call, Event, Sys, Host, call, verify_source, verify_provenance, verify_on_chain, is_ok,
}
use mt.System.Rules.{
  Keeps, Keeps-raise_if, Hoare, Any, Post, returned, raised, Hoare-Keeps, Hoare-frame, Hoare-bind,
  Hoare-pre, Hoare-pure, Hoare-if, Hoare-raise, Hoare-reraise, Hoare-attempt,
}
use mt.State.Pending.{clear_submission_pending}
use mt.Controller.Setup.{
  Backend, backend_publish, backend_verify_source, backend_verify_provenance,
  backend_verify_on_chain,
}
use mt.Config.{Config}
use mt.Controller.Reconcile.{or_refuse}
use mt.Controller.Submit.{broadcast, publish_commitment, committed_payload}
use mt.Controller.Loud.{IsLoud, mark_pending-Hoare, check_broadcast-Hoare}
use mt.Controller.Quiet.{
  IsTolerant, Anywhere, anywhere, write-Keeps, assert_registered-Keeps, refresh_same_round-Keeps,
  assert_deadline-Keeps,
}
use mt.Controller.Harmless.{IsOblivious, clear-Keeps, or_refuse-Keeps}

-- The call was made and returned.
abbrev pub Returned : Call → List Event → Type 0
Returned c [] = ⊥
Returned c (e ∷ l) = ((e.call ≡ c) × (e.returned ≡ true)) ⊎ Returned c l

abbrev pub AllReturned : {W : Type 0} → List Call → Sys W → Type 0
AllReturned [] s = Unit
AllReturned (c ∷ l) s = Returned c s.events × AllReturned l s

module _ {W : Type 0} where
  later :
      (l : List Call) (s : Sys W) (e : Event)
      → AllReturned l s
      → AllReturned l (record s { events = e ∷ s.events })
  later [] s e a = tt
  later (c ∷ l) s e (r, a) = (inr r, later l s e a)

  with_world :
      (l : List Call) (s : Sys W) (w : W) → AllReturned l s → AllReturned l (record s { world = w })
  with_world [] s w a = tt
  with_world (c ∷ l) s w (r, a) = (r, with_world l s w a)

  with_files :
      (l : List Call) (s : Sys W) (f : Files)
      → AllReturned l s
      → AllReturned l (record s { files = f })
  with_files [] s f a = tt
  with_files (c ∷ l) s f (r, a) = (r, with_files l s f a)

  pub oblivious : (h : Host W) (b : Backend W) (l : List Call) → IsOblivious h b (AllReturned l)
  oblivious h b l = record {
    tolerant = record {
      Move = Anywhere;
      within = anywhere;
      world = λ s w m i. with_world l s w i;
      status = λ s f i. with_files l s _ i;
      health = λ s f i. with_files l s _ i;
      event = λ s e q i. later l s e i;
    };
    pending = λ s f i. with_files l s _ i;
  }

  pub tolerant : (h : Host W) (b : Backend W) (l : List Call) → IsTolerant h b (AllReturned l)
  tolerant h b l = (oblivious h b l).tolerant

  pub loud : (h : Host W) {b : Backend W} (l : List Call) → IsLoud h b (AllReturned l)
  loud h {b} l = record { oblivious = oblivious h b l; event = λ s e q i. later l s e i }

  -- A call that returned is noted as returned.
  call-Hoare :
      {A : Type 0} (c : Call) (l : List Call) (f : W → Result A × W)
      → Hoare (AllReturned l) Any (call c f) (λ _. AllReturned (c ∷ l))
  unfolding call
  call-Hoare c l f = record { at = λ s i _. noted s (f s.world).0 (f s.world).1 i }
    where
      noted :
          {A : Type 0} (s : Sys W) (r : Result A) (w : W)
          → AllReturned l s
          → Post
              (AllReturned l)
              (λ _. AllReturned (c ∷ l))
              (
                r,
                record s {
                  world = w;
                  events = record { call = c; files = s.files; returned = is_ok r } ∷ s.events;
                },
              )
      noted s (ok a) w i =
          let j = later l (record s { world = w }) _ (with_world l s w i) in
          returned j (inl (refl, refl), j)
      noted s (err e) w i = raised (later l (record s { world = w }) _ (with_world l s w i))

module _ {W : Type 0} (h : Host W) (b : Backend W) (c : Config) (p : PackagedArtifact)
    (l : List Call) where
  abbrev L : IsLoud h b (AllReturned l)
  L = loud h l

  abbrev with_on_chain : List Call
  with_on_chain = verify_on_chain p ∷ l

  pub verify_on_chain-Hoare :
      Hoare (AllReturned l) Any (backend_verify_on_chain b p) (λ _. AllReturned with_on_chain)
  unfolding backend_verify_on_chain
  verify_on_chain-Hoare = call-Hoare (verify_on_chain p) l _

  publish-Keeps : Keeps (AllReturned l) (backend_publish b p)
  unfolding backend_publish call
  publish-Keeps = record {
    at = λ s i. later l (record s { world = (b.do_publish p s.world).1 }) _ (with_world l s _ i);
  }

  pub clear_or_refuse-Keeps :
      (m : List Call) (print text : String)
      → Keeps (AllReturned m) (or_refuse h b c (clear_submission_pending h print) text)
  clear_or_refuse-Keeps m print text =
      or_refuse-Keeps h b c (AllReturned m) (oblivious h b m) _
        (clear-Keeps h (AllReturned m) (oblivious h b m) print)

  broadcast-Hoare :
      (print : String) (details : Fields)
      → Hoare (AllReturned l) Any (broadcast h b c p print details) (λ _. AllReturned with_on_chain)
  unfolding broadcast
  broadcast-Hoare print details =
      Hoare-attempt
        (Hoare-bind (Hoare-Keeps publish-Keeps) λ receipt.
          Hoare-bind (Hoare-Keeps (Keeps-raise_if _ _ _)) λ _.
            Hoare-bind (Hoare-Keeps (write-Keeps h (AllReturned l) (tolerant h b l) _ _ _ _ _ _))
              λ _. Hoare-bind (Hoare-pre (λ _ _. tt) verify_on_chain-Hoare) λ payload.
                Hoare-bind (Hoare-frame (Keeps-raise_if _ _ _) (Keeps-raise_if _ _ _))
                  λ _. Hoare-pure _ λ s a. a)
        λ e.
          Hoare-if (is_artifact_binding e.kind)
            (λ _. Hoare-bind (Hoare-Keeps (clear_or_refuse-Keeps l print _)) λ _. Hoare-reraise e)
            λ _.
              Hoare-if (is_authorization_refused e.kind) (λ _. Hoare-reraise e)
                (λ _. Hoare-raise _ _)

  publish_commitment-Hoare :
      (w : RoundWindow) (encoded : String) (n : ℤ) (details : Fields)
      → Hoare
          (AllReturned l)
          Any
          (publish_commitment h b c w p encoded n details)
          (λ _. AllReturned with_on_chain)
  unfolding publish_commitment
  publish_commitment-Hoare w encoded n details =
      Hoare-bind (Hoare-Keeps (refresh_same_round-Keeps h b c (AllReturned l) (tolerant h b l) w))
        λ fresh.
          Hoare-bind
            (Hoare-Keeps (assert_deadline-Keeps h b c (AllReturned l) (tolerant h b l) _ _ _))
            λ _.
              Hoare-bind (Hoare-Keeps (write-Keeps h (AllReturned l) (tolerant h b l) _ _ _ _ _ _))
                λ _.
                  Hoare-bind
                    (Hoare-Keeps (assert_registered-Keeps h b c (AllReturned l) (tolerant h b l)))
                    λ _.
                      Hoare-bind
                        (Hoare-pre (λ _ _. tt)
                          (mark_pending-Hoare h b c p (AllReturned l) L encoded n))
                        λ _. Hoare-bind (check_broadcast-Hoare h b c p (AllReturned l) L w _) λ _.
                          Hoare-bind (Hoare-pre (λ _ _. tt) (broadcast-Hoare _ details)) λ payload.
                            Hoare-bind
                              (Hoare-frame (clear_or_refuse-Keeps l _ _)
                                (clear_or_refuse-Keeps with_on_chain _ _))
                              λ _. Hoare-pure _ λ s a. a

  pub committed_payload-Hoare :
      (w : RoundWindow) (encoded : String) (n : ℤ) (details : Fields)
      → Hoare
          (AllReturned l)
          Any
          (committed_payload h b c w p encoded n details)
          (λ _. AllReturned with_on_chain)
  unfolding committed_payload
  committed_payload-Hoare w encoded n details = Hoare-attempt verify_on_chain-Hoare λ e.
      Hoare-if (is_verification e.kind) (λ _. publish_commitment-Hoare w encoded n details)
        (λ _. Hoare-reraise e)

  pub verify_source-Hoare :
      Hoare
        (AllReturned l)
        Any
        (backend_verify_source b p true)
        (λ _. AllReturned (verify_source p true ∷ l))
  unfolding backend_verify_source
  verify_source-Hoare = call-Hoare (verify_source p true) l _

  pub verify_provenance-Hoare :
      (n : ℤ)
      → Hoare
          (AllReturned l)
          Any
          (backend_verify_provenance b p n)
          (λ _. AllReturned (verify_provenance p n ∷ l))
  unfolding backend_verify_provenance
  verify_provenance-Hoare n = call-Hoare (verify_provenance p n) l _
