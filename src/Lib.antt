-- ===== src/Lib.antt =====
-- The core of the inventory service, a TypeScript system in layers: the domain's entities, value
-- objects, strategies and services (src/domain), the use cases that call them over repositories
-- (src/application), and adapters (GraphQL, persistence, webhooks, messaging) around these.
--
-- Stock models one article at one location: Stock/Quantity is src/domain/valueObjects/Quantity.ts and
-- UnitOfMeasure.ts, Stock/Sku is Sku.ts, Stock/Item is src/domain/entities/InventoryItem.ts with one function per method
-- (receiveStock is receive_stock), Stock/Item/Laws states the methods as operations on three
-- numbers, Stock/Item/Runs is about sequences of calls, and Stock/Shelves about the items that a
-- repository holds at one location. Stock/Repository is
-- src/infrastructure/persistence/InMemoryInventoryRepository.ts (Saving and Batch are about what it
-- holds after saves), Stock/Capacity is src/domain/services/WMSCapacityService.ts, Stock/UseCases is
-- ReceiveStock.ts, DispatchStock.ts and ManageAllocations.ts of src/application/useCases with
-- src/application/decorators/AutoRetryDecorator.ts (Retry), and Stock/Count is SubmitInventoryCount.ts.
-- Transfer models movements between locations: Transfer/Entity is src/domain/entities/StockTransfer.ts,
-- Transfer/UseCases is src/application/useCases/ManageStockTransfers.ts with the ledger entries of
-- src/infrastructure/utils/ledgerEntryUtils.ts. Its loop calls the methods of Stock/Item.
-- Transfer/UseCases/Lines is one pass of the loop, Runs the loop, Outcome and Stock one use case,
-- RoundTrip two in a row, and Returns says when a dispatch returns, with Versions about the
-- check of the versions at its save.
-- Costing models src/domain/entities/InventoryCostLayer.ts (Costing/Layer) and the strategies of
-- src/domain/strategies (Costing/Strategy), over a stable sort (Costing/Sort). Costing/Repository is
-- src/infrastructure/persistence/PostgresInventoryCostLayerRepository.ts, a table of layers with its
-- queries (Loaded) and its upsert (Saving), and Costing/Service is
-- src/domain/services/CostLayerService.ts over it, with the batch at FIFO in Batch; Conservation is
-- about consuming.
-- Journal models the double-entry journal: src/domain/entities/JournalEntry.ts and JournalLine.ts, and
-- src/domain/services/AccountingJournalService.ts.
-- Approval models src/domain/entities/ApprovalWorkflow.ts (Approval/Workflow), ApprovalRequest.ts
-- (Approval/Request), and src/domain/services/ApprovalWorkflowService.ts (Approval/Service), which loads
-- both from its repository and stores the request: Decisions is about processDecision, and Sweep about
-- checkExpiredRequests.
-- Serial models src/domain/entities/SerializedItem.ts and the status machine of
-- src/domain/enums/SerializedItemStatus.ts, and Serial/History what the history says of the status.
-- Replica models src/domain/crdt/CRDTStockResolver.ts, counters of stock that replicas keep and merge;
-- Replica/View is their quotient by the order in which the nodes are stored.
-- Kit models src/domain/entities/Kit.ts. Ledger models the entries of the stock ledger
-- (src/domain/entities/LedgerEntry.ts, Ledger/Entry), the list that holds them
-- (src/infrastructure/persistence/InMemoryLedgerRepository.ts, Ledger/Repository), and the sales that
-- post to it (src/domain/services/InventoryService.ts, Ledger/Sales): Service holds the methods,
-- Balance what they do to the quantities, and Oversell when a quantity falls below zero.
-- Returns models returned goods: Returns/Item and Returns/Rma are src/domain/entities/RmaItem.ts and Rma.ts,
-- Returns/Quarantine is QuarantineItem.ts, and Returns/UseCases is
-- src/application/useCases/ManageReturns.ts. Its Receive (the loop) and ReceiveRma receive the goods
-- of a return; LineParts, ReceiveLine and Receipt are about what they do, and Returning about when they
-- return. Its Resolve takes an item out of quarantine and calls Stock/Item, Costing/Service, Journal
-- and Approval/Service; WriteOut, Settling and Resolution are about it step by step, and Estimate
-- about the cost that it shows for approval. Rma/Completion, Rma/Repeated and Rma/Reachable are
-- about sequences of calls on one return.
-- Prelude holds what they share: Boolean tests, lists, integers, maps, results, and the monad of a
-- method that may throw and keeps what it assigned before.
--
-- An object is a record that a method takes and returns; a throw is an error value, and the state at
-- the throw is kept. Quantities, cents and dates are whole numbers, without a bound: the code uses
-- doubles, which are exact up to 2 ^ 53. Identifiers, names and roles are numbers that are only
-- compared; a SKU as a number is its text (Stock/Sku), and the catalogue's SKUs are values of Sku. A
-- batch of items is saved in one transaction, as PostgresInventoryRepository.ts does, for transfers and
-- returns, and item by item, as InMemoryInventoryRepository.ts does, for counts. Every loop is a recursion on its list, so no fuel is used. The double arithmetic of the
-- weighted average is a parameter, and so are the catalogue, the random identifiers and the naming of
-- places for quarantine. The database is a table that queries filter and sort; an upsert that
-- names a row twice, as a batch with two lines of a variant does, is taken to keep the last.
--
-- Serial/Service is src/domain/services/SerializedInventoryService.ts over
-- InMemorySerializedItemRepository.ts and the ledger: Moves is about each move of a serial number, Round
-- about a sale that is returned and restocked. Ledger/Opening is src/domain/entities/StockOnboarding.ts,
-- src/domain/services/OpeningBalanceService.ts and src/application/useCases/SubmitOpeningBalance.ts:
-- Opening/Posted is about the quantities that an opening balance leaves.
-- Purchase models src/domain/entities/PurchaseOrder.ts (Purchase/Order) and
-- src/domain/services/CrossDockingEngine.ts (Purchase/CrossDock).
--
-- Not modelled: the adapters, which translate requests and rows; descriptions and notes, which nothing
-- reads; the batches of the cost layer service other than those at FIFO; and the other entities and
-- services of src/domain.
pub mod Prelude
pub mod Stock
pub mod Transfer
pub mod Costing
pub mod Journal
pub mod Approval
pub mod Replica
pub mod Serial
pub mod Kit
pub mod Ledger
pub mod Returns
pub mod Purchase
