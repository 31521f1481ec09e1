-- ===== src/Tests.antt =====
-- Runs of the program on a small concrete memory, and the theorems applied there.
mod Memory
mod RoleStore
mod Outside
mod Recovery
mod Addresses
mod Sessions
mod Accounts
mod Access
mod Codes
mod Roles
mod Server
mod Parameters
mod Cache
mod Texts
mod Mails
mod Lists
mod Translations
