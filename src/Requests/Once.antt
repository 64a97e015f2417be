-- ===== src/Requests/Once.antt =====
-- A request, an operation and a span end once, however often and by whomever `End` is called.
use logcenter_sdk_go.Base.{String, List, [], ◌∷◌, Bool, true, false, ◌≡◌, refl, ap, if◌then◌else◌}
use logcenter_sdk_go.Times.{Clock}
use logcenter_sdk_go.Context.{Context}
use logcenter_sdk_go.Client.{Client, World}
use logcenter_sdk_go.Requests.RequestDefs.{Request, RequestEndOptions, request_end_with_context}
use logcenter_sdk_go.Requests.OperationDefs.{
  Operation, OperationEndOptions, operation_end_with_context,
}
use logcenter_sdk_go.Requests.SpanDefs.{Span, span_end}

-- What can be ended: an ended one is left alone, and one that was ended stays so.
pub record Ending (Thing Call : Type 0) : Type 0 where
  pub finish : Call → Thing → Client → Thing × Client × Bool
  pub ended : Thing → Bool
  pub finish-ended :
      (call : Call) (thing : Thing) (client : Client)
      → ended thing ≡ true
      → finish call thing client ≡ (thing, client, false)
  pub ended-finish :
      (call : Call) (thing : Thing) (client : Client) → ended (finish call thing client).0 ≡ true

module _ {Thing Call : Type 0} (ending : Ending Thing Call) where
  -- A list of calls, each with what others do to the client before it.
  abbrev pub finish_all :
      List ((Client → Client) × Call) → Thing → Client → Thing × Client × List Bool
  finish_all [] thing client = (thing, client, [])
  finish_all ((others, call) ∷ calls) thing client =
      let (thing1, client1, queued) = ending.finish call thing (others client) in
      let (thing2, client2, results) = finish_all calls thing1 client1 in
      (thing2, client2, queued ∷ results)

  -- What the others do.
  abbrev pub others_all : List ((Client → Client) × Call) → Client → Client
  others_all [] client = client
  others_all ((others, call) ∷ calls) client = others_all calls (others client)

  abbrev pub refused : List ((Client → Client) × Call) → List Bool
  refused [] = []
  refused (call ∷ calls) = false ∷ refused calls

  finish_all-ended :
      (calls : List ((Client → Client) × Call)) (thing : Thing) (client : Client)
      → ending.ended thing ≡ true
      → finish_all calls thing client ≡ (thing, others_all calls client, refused calls)
  finish_all-ended [] thing client h = refl
  finish_all-ended ((others, call) ∷ calls) thing client h =
      rw
        (
          ending.finish-ended call thing (others client) h,
          finish_all-ended calls thing (others client) h,
        )
        refl

  -- After the first call, all the others are refused and leave the client alone.
  finish_all-once :
      (others : Client → Client) (call : Call) (calls : List ((Client → Client) × Call))
      (thing : Thing) (client : Client)
      → let first = ending.finish call thing (others client) in
        finish_all ((others, call) ∷ calls) thing client
        ≡ (first.0, others_all calls first.1, first.2 ∷ refused calls)
  finish_all-once others call calls thing client =
      let first = ending.finish call thing (others client) in
      ap (λ (r : Thing × Client × List Bool). (r.0, r.1, first.2 ∷ r.2))
        (finish_all-ended calls first.0 first.1 (ending.ended-finish call thing (others client)))

-- The shape of `End`: nothing is done where the thing has ended, and else it is marked.
pub ended-if :
    {Thing : Type 0} (ended : Thing → Bool) (b : Bool) (x y : Thing × Client × Bool)
    → (b ≡ true → ended x.0 ≡ true)
    → ended y.0 ≡ true
    → ended (if b then x else y).0 ≡ true
ended-if ended true x y h k = h refl
ended-if ended false x y h k = k

module _ (world : World) (clock : Clock) where
  unfoldable pub request_ending : Ending Request (Context × RequestEndOptions)
  unfolding request_end_with_context
  request_ending = record {
    finish =
        λ call request client. request_end_with_context world clock call.0 call.1 request client;
    ended = λ request. request.ended;
    finish-ended = λ call request client h. rw (h, request_end_with_context) refl;
    ended-finish =
        λ call request client. ended-if (λ (r : Request). r.ended) request.ended _ _ (λ h. h) refl;
  }

  unfoldable pub operation_ending : Ending Operation (Context × List OperationEndOptions)
  unfolding operation_end_with_context
  operation_ending = record {
    finish = λ call operation client.
        operation_end_with_context world clock call.0 call.1 operation client;
    ended = λ operation. operation.ended;
    finish-ended = λ call operation client h. rw (h, operation_end_with_context) refl;
    ended-finish = λ call operation client.
        ended-if (λ (o : Operation). o.ended) operation.ended _ _ (λ h. h) refl;
  }

  unfoldable pub span_ending : Ending Span String
  unfolding span_end
  span_ending = record {
    finish = λ status span client. span_end world clock status span client;
    ended = λ span. span.ended;
    finish-ended = λ status span client h. rw (h, span_end) refl;
    ended-finish =
        λ status span client. ended-if (λ (s : Span). s.ended) span.ended _ _ (λ h. h) refl;
  }

  -- However often `End` is called on a request, with whatever options and whatever others do to the
  -- client in between, the first call alone acts on the client; each later call returns false and
  -- changes neither the request nor the client.
  pub request_ends_once :
      (others : Client → Client) (call : Context × RequestEndOptions)
      (calls : List ((Client → Client) × (Context × RequestEndOptions))) (request : Request)
      (client : Client)
      → let first = request_end_with_context world clock call.0 call.1 request (others client) in
        finish_all request_ending ((others, call) ∷ calls) request client
        ≡ (first.0, others_all request_ending calls first.1, first.2 ∷ refused request_ending calls)
  unfolding request_ending
  request_ends_once others call calls request client =
      finish_all-once request_ending others call calls request client

  -- The same holds of the calls of `End` on an operation.
  pub operation_ends_once :
      (others : Client → Client) (call : Context × List OperationEndOptions)
      (calls : List ((Client → Client) × (Context × List OperationEndOptions)))
      (operation : Operation) (client : Client)
      → let first =
          operation_end_with_context world clock call.0 call.1 operation (others client) in
        finish_all operation_ending ((others, call) ∷ calls) operation client ≡ (
          first.0,
          others_all operation_ending calls first.1,
          first.2 ∷ refused operation_ending calls,
        )
  unfolding operation_ending
  operation_ends_once others call calls operation client =
      finish_all-once operation_ending others call calls operation client

  -- The same holds of the calls of `End` on a span.
  pub span_ends_once :
      (others : Client → Client) (status : String) (calls : List ((Client → Client) × String))
      (span : Span) (client : Client)
      → let first = span_end world clock status span (others client) in
        finish_all span_ending ((others, status) ∷ calls) span client
        ≡ (first.0, others_all span_ending calls first.1, first.2 ∷ refused span_ending calls)
  unfolding span_ending
  span_ends_once others status calls span client =
      finish_all-once span_ending others status calls span client
