-- ===== src/Lib.antt =====
-- The TypeScript core of the dusk keeper: which candidate is worked on next, how an attempt to execute
-- it goes on from step to step, and how the data of its instruction are read and encoded.
--
-- The program. A keeper watches a protocol and proposes candidates (`CandidateIntent`): positions to
-- liquidate, orders to fill. The scheduler keeps at most one candidate for a conflict key and hands out
-- the best whose key is not in flight. Each candidate handed out gets an attempt, a state machine of
-- eleven steps from `discover` to `journal`, whose state a caller replaces by what
-- `applyLifecycleEvent` returns. The adapter reads the chain's accounts (here the fees of a mint),
-- finds the addresses that the protocol derives, and encodes the instruction that the attempt
-- simulates, signs and submits. Before that, the envelope of the instruction is compared with the
-- contract that the protocol lock pins; only an envelope that passes can be signed.
--
-- Which file models which part:
--   Keeper/Candidate    typescript/packages/keeper-core/src/index.ts: job kinds, `priorities`,
--                       candidates, outcomes
--   Keeper/Scheduler    the same file: `Scheduler` (`enqueue`, `popNext`, `markInFlight`, `finish`,
--                       `pendingCount`) and `compareCandidates`. The two maps of the class are lists in
--                       insertion order.
--   Keeper/Attempt, Keeper/Lifecycle
--                       typescript/packages/keeper-core/src/lifecycle.ts: the attempt's state and
--                       events, and `applyLifecycleEvent` with
--                       every function that it calls. An event is a constructor, and an error is its code.
--   Adapter/Bytes, Adapter/Values, Adapter/Hex
--                       buffers, the host's numbers, and hexadecimal texts, as the adapter uses them
--   Adapter/TransferFees
--                       typescript/packages/dusk-adapter/src/transfer-fees.ts
--   Adapter/Lock        typescript/packages/dusk-adapter/src/protocol-lock.ts: the checks of the lock
--   Adapter/Contract    typescript/packages/dusk-adapter/src/envelope.ts: the contract's records
--   Adapter/Envelope    the same file: `EnvelopeValidator` (its constructor, `validate`,
--                       `validateForSigning`), with the account checks in Envelope/Accounts, the payload
--                       of a delegated close in Envelope/Delegated, and the canonical bytes with
--                       `envelopeParitySha256` in Envelope/Parity
--   Adapter/Codec       typescript/packages/dusk-adapter/src/codec.ts: the requests, the BorshWriter,
--                       `encodeKeeperInstruction`, and the parser of JSON arguments (Codec/Parsing)
--   Adapter/Pubkeys     typescript/packages/dusk-adapter/src/resolution.ts: `decodePubkey`;
--                       Resolution/Base58/Decoding is about it too
--   Adapter/Resolution  the same file: the constructor of `DeterministicAccountResolver` and
--                       `resolveStatic`; Resolution/Recipes has `pdaRecipeKey`, `derivePda` and
--                       `derivePdaStrings`, Resolution/Derivation `findProgramAddress`,
--                       Resolution/Curve the field and `isEd25519Point`, Resolution/Base58
--                       `base58Encode`
--   Adapter/Liquidation typescript/packages/dusk-adapter/src/liquidation.ts: `base58`,
--                       `decodeLiquidationQuote` in Liquidation/Quote, a reader for each kind of quote,
--                       and in Liquidation/Plan `liquidationInstruction`, `liquidationResources`,
--                       `buildFlashPlan` and `buildEmergencyPlan`
-- The children of a component hold its invariant, its theorems and its tests.
--
-- Conventions. A function that throws returns a `Result`; the `ok` of a method that changes its object
-- holds the object after it. A `bigint` is an integer, a `number` is an integer or none at all (a
-- fraction, an infinity, NaN); slots and counters are natural numbers. A buffer is a list of natural
-- numbers, and `AreBytes` where a theorem needs each below 256.
--
-- From outside: `localeCompare` is a parameter (`Collation`) with the laws of a total preorder, which
-- is what the host documents of it; SHA-256 is a parameter with no law, but where a theorem on two
-- envelopes asks that it tells their canonical bytes apart.
--
-- Fuel. `decodeMintFees` walks the extensions of a mint on fuel, one round more than there are bytes;
-- every round reads four bytes at least, so this is enough, and the error `out_of_fuel` never occurs.
-- `decodePubkey` and `base58Encode` push a carry in at most as many rounds as the carry is large; a
-- number is printed, in base 58 or ten, in at most as many rounds as it is large, and `modPow` halves
-- its exponent in at most as many rounds as that is large. All other loops are structural.
--
-- Not modelled: the texts of error messages of the codec, the lifecycle, the envelope validator and the
-- resolver, the clock that stamps an attempt, the resolution of the accounts of a liquidation, the
-- reading of the lock's file, and the start-up of the application. A text holds Unicode scalar values,
-- so no lone surrogate is ever written as UTF-8.
pub mod Prelude
pub mod Keeper
pub mod Adapter
