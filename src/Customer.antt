-- ===== src/Customer.antt =====
-- ai-chat-server/services/customer and the actions that wait for a verification of the customer.
pub mod PendingAction
pub mod BrowserCart
pub mod GuestAccess
pub mod SupportAccess
pub mod AddressUpdate
