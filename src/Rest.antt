-- ===== src/Rest.antt =====
-- wallet/interfaces/rest/wallet.controller.ts and its bodies, and the query handlers that its reads
-- go through. A request's parts are arguments. The buses hand a command or a query to its handler. A
-- body that is not of its declared type, and the framework's routing, are left out.
pub mod Answers
use Prim.Native.String.{◌++◌ as text_append}
use wallex_sanbox.Prelude.{
  ℕ, String, Bool, ◌||◌, Option, none, some, List, str_eq, get_or, if◌then◌else◌,
}
use wallex_sanbox.Prelude.Int.{ℤ}
use wallex_sanbox.Number.{Number, zero_number}
use wallex_sanbox.Exec.{
  Error, plain, already_exists, event_concurrency, not_found, invalid_amount, insufficient_funds,
  Result, ok, err, Exec,
}
use wallex_sanbox.Aggregate.{WalletState}
use wallex_sanbox.Documents.{ElasticClient, WalletReadRepository, find_by_id, find_all}
use wallex_sanbox.Projections.{WalletReadModel}
use wallex_sanbox.Commands.{Services, World, Times, ChangeCommand, credit_wallet, debit_wallet}
use wallex_sanbox.Commands.Create.{CreateWalletCommand, CreateTimes, create_wallet}
use wallex_sanbox.Commands.Transfer.{TransferCommand, TransferResult, transfer_wallet}

-- What a route throws: an exception of the framework with a text, or with the message of an error, or
-- an error as it is.
pub data HttpException : Type 0 where
  refuses missing : String → HttpException
  bad_request not_there clashes thrown : Error → HttpException

pub data Reply (A : Type 0) : Type 0 where
  replies : A → Reply A
  fails : HttpException → Reply A

unfoldable pub handle_error : Error → HttpException
handle_error (already_exists id) = clashes (already_exists id)
handle_error (event_concurrency v x) = clashes (event_concurrency v x)
handle_error (not_found id) = not_there (not_found id)
handle_error (invalid_amount n) = bad_request (invalid_amount n)
handle_error (insufficient_funds id b n) = bad_request (insufficient_funds id b n)
handle_error e = thrown e

pub record WalletResponse : Type 0 where
  pub id : String
  pub owner_id : String
  pub balance : Number
  pub version : ℤ
  pub created_at : String
  pub updated_at : String

abbrev pub response_of : WalletState → WalletResponse
response_of w = record {
  id = w.id;
  owner_id = w.owner_id;
  balance = w.balance;
  version = w.version;
  created_at = w.created_at;
  updated_at = w.updated_at;
}

-- Reading a field of a missing state throws too.
abbrev pub no_fields : Error
no_fields = plain "Cannot read properties of null (reading 'id')"

abbrev pub reply_to_change : Result (Option WalletState) → Reply WalletResponse
reply_to_change (ok (some state)) = replies (response_of state)
reply_to_change (ok none) = fails (handle_error no_fields)
reply_to_change (err e) = fails (handle_error e)

abbrev reply_to_transfer : Result TransferResult → Reply (WalletResponse × WalletResponse)
reply_to_transfer (ok (some a, some b)) = replies (response_of a, response_of b)
reply_to_transfer (ok (some a, none)) = fails (handle_error no_fields)
reply_to_transfer (ok (none, b)) = fails (handle_error no_fields)
reply_to_transfer (err e) = fails (handle_error e)

-- What a command returns or throws becomes the answer of its route.
abbrev pub respond : {A B W : Type 0} → (Result A → Reply B) → Result A × W → Reply B × W
respond reply (r, w) = (reply r, w)

pub record CreateWalletDto : Type 0 where
  pub wallet_id : String
  pub owner_id : String
  pub initial_balance : Option Number

pub record MutateWalletBalanceDto : Type 0 where
  pub amount : Number
  pub description : Option String

abbrev pub change_command : String → MutateWalletBalanceDto → ChangeCommand
change_command wallet_id dto = record {
  wallet_id = wallet_id;
  amount = dto.amount;
  description = dto.description;
}

pub record TransferWalletDto : Type 0 where
  pub to_wallet_id : String
  pub amount : Number
  pub description : Option String

module _ (s : Services) (sleep : ℕ → World s → World s) where
  -- `createWallet`, with the headers `idempotency-key` and `x-correlation-id`
  unfoldable pub post_wallet :
      CreateWalletDto
      → Option String
      → Option String
      → CreateTimes
      → World s
      → Reply WalletResponse × World s
  post_wallet dto idempotency_key correlation_id t w =
      if str_eq dto.wallet_id "" || str_eq dto.owner_id ""
      then (fails (refuses "walletId and ownerId are required"), w)
      else respond reply_to_change (
          create_wallet s sleep
            (record {
              wallet_id = dto.wallet_id;
              owner_id = dto.owner_id;
              initial_balance = get_or dto.initial_balance zero_number;
              idempotency_key = idempotency_key;
              correlation_id = correlation_id;
            })
            t w)

  -- `creditWallet`
  unfoldable pub post_credit :
      String → MutateWalletBalanceDto → Times → World s → Reply WalletResponse × World s
  post_credit wallet_id dto t w =
      if str_eq wallet_id ""
      then (fails (refuses "walletId is required"), w)
      else respond reply_to_change (credit_wallet s sleep (change_command wallet_id dto) t w)

  -- `debitWallet`
  unfoldable pub post_debit :
      String → MutateWalletBalanceDto → Times → World s → Reply WalletResponse × World s
  post_debit wallet_id dto t w =
      if str_eq wallet_id ""
      then (fails (refuses "walletId is required"), w)
      else respond reply_to_change (debit_wallet s sleep (change_command wallet_id dto) t w)

  -- `transferWallet`
  unfoldable pub post_transfer :
      String
      → TransferWalletDto
      → Times
      → World s
      → Reply (WalletResponse × WalletResponse) × World s
  post_transfer from_wallet_id dto t w =
      if str_eq from_wallet_id ""
      then (fails (refuses "fromWalletId is required"), w)
      else if str_eq dto.to_wallet_id ""
      then (fails (refuses "toWalletId is required"), w)
      else respond reply_to_transfer (
          transfer_wallet s sleep
            (record {
              from_wallet_id = from_wallet_id;
              to_wallet_id = dto.to_wallet_id;
              amount = dto.amount;
              description = dto.description;
            })
            t w)

module _ {B : Type 0} (client : ElasticClient B) where
  -- `GetWalletHandler.execute` and `GetWalletsHandler.execute`
  abbrev pub get_wallet_query : String → Exec (WalletReadRepository B) (Option WalletReadModel)
  get_wallet_query wallet_id = find_by_id client wallet_id

  abbrev pub get_wallets_query : Exec (WalletReadRepository B) (List WalletReadModel)
  get_wallets_query = find_all client

  abbrev found_or_missing : String → Result (Option WalletReadModel) → Reply WalletReadModel
  found_or_missing wallet_id (ok (some document)) = replies document
  found_or_missing wallet_id (ok none) =
      fails (missing (text_append "Wallet " (text_append wallet_id " not found")))
  found_or_missing wallet_id (err e) = fails (thrown e)

  -- `getWallet`, which is `fetchWalletOrThrow`
  unfoldable pub get_wallet :
      String → WalletReadRepository B → Reply WalletReadModel × WalletReadRepository B
  get_wallet wallet_id r = respond (found_or_missing wallet_id) (get_wallet_query wallet_id r)

  abbrev listed_or_thrown : Result (List WalletReadModel) → Reply (List WalletReadModel)
  listed_or_thrown (ok documents) = replies documents
  listed_or_thrown (err e) = fails (thrown e)

  unfoldable pub get_wallets :
      WalletReadRepository B → Reply (List WalletReadModel) × WalletReadRepository B
  get_wallets r = respond listed_or_thrown (get_wallets_query r)
